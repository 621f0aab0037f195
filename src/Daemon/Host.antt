-- ===== src/Daemon/Host.antt =====
-- What the daemon and the guest agent use and the repository does not implement, as parameters:
-- capctl's capability state, aya's eBPF objects, polkit over D-Bus, the clock, the process's uid.
-- `World` is the state outside the program that these calls read and change. Only the variants of
-- aya's enums that the source names are constructors; the others are one catch-all.
use ebpf_assist.Prelude.{ℕ, String, Bool, true, false, Option, List, Result, ok, ◌≡◌, ◌≢◌}

-- `aya::programs::Program`
pub data Program : Type 0 where
  k_probe u_probe trace_point raw_trace_point xdp sched_classifier : Program
  cgroup_skb socket_filter perf_event lsm other_program : Program

-- `aya::maps::Map`
pub data Map : Type 0 where
  hash_map array per_cpu_hash_map per_cpu_array perf_event_array ring_buf : Map
  lru_hash_map stack queue other_map : Map

-- `capctl::caps::CapState`, over the sets of capabilities
pub record CapState (CapSet : Type 0) : Type 0 where
  pub permitted : CapSet
  pub effective : CapSet

pub record Host : Type 1 where
  pub World : Type 0
  -- capctl
  pub Cap : Type 0
  pub bpf_cap : Cap
  pub perfmon_cap : Cap
  pub net_admin_cap : Cap
  pub debug_cap : Cap → String
  pub CapSet : Type 0
  pub has : CapSet → Cap → Bool
  pub add : CapSet → Cap → CapSet
  pub drop : CapSet → Cap → CapSet
  pub get_current : World → World × Result String (CapState CapSet)
  pub set_current : CapState CapSet → World → World × Result String (Unit {0})
  -- aya: an object file, its programs and its maps
  pub Bpf : Type 0
  pub load_file : String → World → World × Result String Bpf
  pub load_bytes : List ℕ → World → World × Result String Bpf
  pub programs : Bpf → List (String × Program)
  pub load_program : Bpf → String → World → World × Result String (Unit {0})
  pub attach_kprobe : Bpf → String → String → World → World × Result String (Unit {0})
  pub attach_uprobe : Bpf → String → String → String → World → World × Result String (Unit {0})
  pub attach_tracepoint : Bpf → String → String → String → World → World × Result String (Unit {0})
  pub attach_xdp : Bpf → String → String → World → World × Result String (Unit {0})
  pub drop_bpf : Bpf → World → World
  pub maps : Bpf → List (String × Map)
  pub map_data_info : Bpf → String → World → Option (ℕ × ℕ × ℕ)
  pub array_try_from : Bpf → String → Result String (Unit {0})
  pub array_len : Bpf → String → World → ℕ
  pub array_get : Bpf → String → ℕ → World → Result String ℕ
  pub array_set : Bpf → String → ℕ → ℕ → World → World × Result String (Unit {0})
  pub hash_try_from : Bpf → String → Result String (Unit {0})
  pub hash_get : Bpf → String → ℕ → World → Result String ℕ
  pub hash_iter : Bpf → String → World → List (Result String (ℕ × ℕ))
  pub hash_insert : Bpf → String → ℕ → ℕ → World → World × Result String (Unit {0})
  pub hash_remove : Bpf → String → ℕ → World → World × Result String (Unit {0})
  -- D-Bus: the system bus, the call of polkit's `CheckAuthorization` for a uid, an action and
  -- flags, and the reply's `(is_authorized, is_challenge)`
  pub Reply : Type 0
  pub connect_system : World → World × Result String (Unit {0})
  pub call_polkit : (uid : ℕ) (action : String) (flags : ℕ) → World → World × Result String Reply
  pub deserialize : Reply → Result String (Bool × Bool)
  -- the clock in seconds, and `libc::getuid`
  pub now : World → ℕ
  pub getuid : ℕ
  -- the `Debug` of a string, with its quotes and escapes
  pub debug_str : String → String

-- The documented behaviour of capability sets and of capget(2) and capset(2), for a process that
-- may read its own capabilities.
pub record CapLaws (h : Host) : Type 0 where
  pub cap_discrete : Discrete h.Cap
  pub has-add_self : (s : h.CapSet) (c : h.Cap) → h.has (h.add s c) c ≡ true
  pub has-add_ne : (s : h.CapSet) (c d : h.Cap) → c ≢ d → h.has (h.add s c) d ≡ h.has s d
  pub has-drop_self : (s : h.CapSet) (c : h.Cap) → h.has (h.drop s c) c ≡ false
  pub has-drop_ne : (s : h.CapSet) (c d : h.Cap) → c ≢ d → h.has (h.drop s c) d ≡ h.has s d
  -- Reading changes nothing.
  pub get_keeps : (w : h.World) → (h.get_current w).0 ≡ w
  -- The effective set lies within the permitted one.
  pub effective_permitted :
      (w : h.World) (s : CapState h.CapSet) (c : h.Cap)
      → (h.get_current w).1 ≡ ok s
      → h.has s.effective c ≡ true
      → h.has s.permitted c ≡ true
  -- A state within the permitted set is accepted, and is what is read next.
  pub set_accepts :
      (w : h.World) (s t : CapState h.CapSet)
      → (h.get_current w).1 ≡ ok s
      → t.permitted ≡ s.permitted
      → ((c : h.Cap) → h.has t.effective c ≡ true → h.has t.permitted c ≡ true)
      → ((h.set_current t w).1 ≡ ok tt) × ((h.get_current (h.set_current t w).0).1 ≡ ok t)
