-- ===== src/Daemon/Tests.antt =====
-- A small host to run the daemon on: an object file with an XDP program and a kernel probe, an
-- array map and a hash map, a polkit whose answer is part of the world, and a clock.
pub mod Caps
pub mod Service
pub mod Data
use ebpf_assist.Prelude.{
  ℕ, ◌+◌, ◌*◌, Bool, true, false, not, ◌&&◌, List, [], ◌∷◌, String, Option, none, some, Result, ok,
  err, if◌then◌else◌, ltb, nat_eq, ◌≡◌, ◌≢◌, refl, sym, ap, ◌∙◌, arith,
}
use mathlib.Core.Path.{fun_ext}
use ebpf_assist.Daemon.Host.{Host, Program, Map, CapState, CapLaws}

pub data DemoCap : Type 0 where
  bpf perfmon net_admin : DemoCap

pub DemoCap-discrete : Discrete DemoCap
DemoCap-discrete = hlevel

abbrev pub cap_eq : DemoCap → DemoCap → Bool
cap_eq bpf bpf = true
cap_eq perfmon perfmon = true
cap_eq net_admin net_admin = true
cap_eq _ _ = false

abbrev pub cap_name : DemoCap → String
cap_name bpf = "CAP_BPF"
cap_name perfmon = "CAP_PERFMON"
cap_name net_admin = "CAP_NET_ADMIN"

pub record DemoWorld : Type 0 where
  pub effective : DemoCap → Bool
  pub time : ℕ
  pub reachable : Bool
  pub answer : Bool × Bool

-- The permitted set never changes; an effective capability is a permitted one.
abbrev pub demo_state : (DemoCap → Bool) → DemoWorld → CapState (DemoCap → Bool)
demo_state permitted w = record {
  permitted = permitted;
  effective = λ c. permitted c && w.effective c;
}

abbrev pub host_of : (DemoCap → Bool) → Host
host_of permitted = record {
  World = DemoWorld;
  Cap = DemoCap;
  bpf_cap = bpf;
  perfmon_cap = perfmon;
  net_admin_cap = net_admin;
  debug_cap = cap_name;
  CapSet = DemoCap → Bool;
  has = λ s c. s c;
  add = λ s c d. if cap_eq c d then true else s d;
  drop = λ s c d. if cap_eq c d then false else s d;
  get_current = λ w. (w, ok (demo_state permitted w));
  set_current = λ s w. (record w { effective = s.effective }, ok tt);
  Bpf = String;
  load_file = λ path w. (w, ok path);
  load_bytes = λ bytes w. (w, ok "bytes");
  programs = λ object. ("filter", Program.xdp) ∷ ("probe", Program.k_probe) ∷ [];
  load_program = λ object name w. (w, ok tt);
  attach_kprobe = λ object name target w. (w, ok tt);
  attach_uprobe = λ object name path symbol w. (w, ok tt);
  attach_tracepoint = λ object name category event w. (w, ok tt);
  attach_xdp = λ object name target w. (w, ok tt);
  drop_bpf = λ object w. w;
  maps = λ object. ("counts", Map.array) ∷ ("hits", Map.hash_map) ∷ [];
  map_data_info = λ object name w. some (4, 8, 3);
  array_try_from = λ object name. ok tt;
  array_len = λ object name w. 3;
  array_get = λ object name index w. if ltb index 3 then ok (index * 2) else err "out of range";
  array_set = λ object name index value w. (w, ok tt);
  hash_try_from = λ object name. ok tt;
  hash_get = λ object name key w. if nat_eq key 10 then ok 7 else err "no key";
  hash_iter = λ object name w. ok (10, 7) ∷ [];
  hash_insert = λ object name key value w. (w, ok tt);
  hash_remove = λ object name key w. (w, ok tt);
  Reply = Bool × Bool;
  connect_system = λ w. (w, if w.reachable then ok tt else err "no bus");
  call_polkit = λ uid action flags w. (w, ok w.answer);
  deserialize = λ reply. ok reply;
  now = λ w. w.time;
  getuid = 1000;
  debug_str = λ s. s;
}

abbrev pub everything : DemoCap → Bool
everything c = true

abbrev pub without_net : DemoCap → Bool
without_net c = not (cap_eq c net_admin)

abbrev pub demo : Host
demo = host_of everything

-- The world at a time, with polkit's answer.
abbrev pub world_at : ℕ → Bool × Bool → DemoWorld
world_at time answer = record {
  effective = λ c. false;
  time = time;
  reachable = true;
  answer = answer;
}

and_keeps : (a b : Bool) → a && b ≡ true → a ≡ true
and_keeps true b e = refl
and_keeps false b e = cc

and_within : (p b : Bool) → (b ≡ true → p ≡ true) → p && b ≡ b
and_within true b within = refl
and_within false true within = let e = within refl in cc
and_within false false within = refl

cap_eq_self : (c : DemoCap) → cap_eq c c ≡ true
cap_eq_self bpf = refl
cap_eq_self perfmon = refl
cap_eq_self net_admin = refl

cap_eq_ne : (c d : DemoCap) → c ≢ d → cap_eq c d ≡ false
cap_eq_ne bpf bpf ne = absurd (ne refl)
cap_eq_ne perfmon perfmon ne = absurd (ne refl)
cap_eq_ne net_admin net_admin ne = absurd (ne refl)
cap_eq_ne bpf perfmon ne = refl
cap_eq_ne bpf net_admin ne = refl
cap_eq_ne perfmon bpf ne = refl
cap_eq_ne perfmon net_admin ne = refl
cap_eq_ne net_admin bpf ne = refl
cap_eq_ne net_admin perfmon ne = refl

pub host_laws : (permitted : DemoCap → Bool) → CapLaws (host_of permitted)
host_laws permitted = record {
  cap_discrete = DemoCap-discrete;
  has-add_self = λ s c. rw (cap_eq_self c) refl;
  has-add_ne = λ s c d ne. rw (cap_eq_ne c d ne) refl;
  has-drop_self = λ s c. rw (cap_eq_self c) refl;
  has-drop_ne = λ s c d ne. rw (cap_eq_ne c d ne) refl;
  get_keeps = λ w. refl;
  effective_permitted = λ w s c e may.
      let same : demo_state permitted w ≡ s = cc in
      let here : (demo_state permitted w).effective c ≡ true = ap (λ x. x.effective c) same ∙ may in
      ap (λ x. x.permitted c) (sym same) ∙ and_keeps (permitted c) (w.effective c) here;
  set_accepts = λ w s t e kept within.
      let same : demo_state permitted w ≡ s = cc in
      let p : t.permitted ≡ permitted = kept ∙ ap (λ x. x.permitted) (sym same) in
      let q : (λ c. permitted c && t.effective c) ≡ t.effective =
        fun_ext
          λ c. and_within (permitted c) (t.effective c) (λ g. ap (λ f. f c) (sym p) ∙ within c g) in
      (refl, λ i. ok (record { permitted = sym p i; effective = q i }));
}
