-- ===== src/Daemon/Caps.antt =====
-- crates/ebpf-assistd/src/caps.rs: capabilities are raised for one operation and dropped by a guard.
pub mod Scope
use ebpf_assist.Prelude.{String, ◌<>◌, List, [], ◌∷◌, ◌++◌, Result, ok, err, if◌then◌else◌}
use ebpf_assist.Daemon.Host.{Host, CapState}
use ebpf_assist.Daemon.Io.{Io, context, lift, ◌>>=◌}

module _ (h : Host) where
  open h use {World, Cap, CapSet, has, add, drop, debug_cap, get_current, set_current}

  -- `REQUIRED_CAPS`
  abbrev pub required_caps : List Cap
  required_caps = h.bpf_cap ∷ h.perfmon_cap ∷ h.net_admin_cap ∷ []

  -- the loop of `raise_caps`
  pub raise_loop : List Cap → CapState CapSet → Result String (CapState CapSet)
  raise_loop [] s = ok s
  raise_loop (c ∷ cs) s =
      if has s.permitted c
      then raise_loop cs (record { permitted = s.permitted; effective = add s.effective c })
      else err (
          "Capability "
          <> (debug_cap c
              <> " not in permitted set. Is the daemon running with AmbientCapabilities?"))

  -- The guard holds a copy of `caps`, which `with_caps` below keeps itself.
  pub raise_caps : List Cap → Io World (Unit {0})
  unfolding raise_loop
  raise_caps caps = do
    state ← context "Failed to get current capabilities" get_current
    raised ← lift (raise_loop caps state)
    context "Failed to set capabilities" (set_current raised)

  -- the loop of `drop_caps`
  pub drop_loop : List Cap → CapState CapSet → CapState CapSet
  drop_loop [] s = s
  drop_loop (c ∷ cs) s =
      drop_loop cs (record { permitted = s.permitted; effective = drop s.effective c })

  pub drop_caps : List Cap → Io World (Unit {0})
  unfolding drop_loop
  drop_caps caps = do
    state ← context "Failed to get current capabilities" get_current
    context "Failed to drop capabilities" (set_current (drop_loop caps state))

  -- `Drop for CapGuard`: a failure is only logged.
  pub drop_guard : List Cap → World → World
  unfolding drop_caps
  drop_guard caps w = (drop_caps caps w).0

  -- the loop of `check_permitted_caps`, in the order of `REQUIRED_CAPS`
  pub available_caps : List Cap → CapState CapSet → List String
  available_caps [] s = []
  available_caps (c ∷ cs) s =
      if has s.permitted c then debug_cap c ∷ available_caps cs s else available_caps cs s

  unfoldable pub check_permitted_caps : Io World (List String)
  unfolding available_caps
  check_permitted_caps = do
    state ← context "Failed to get current capabilities" get_current
    lift (ok (available_caps required_caps state))

-- The guard is dropped when `f` has returned, whatever its result.
module _ (h : Host) {A : Type 0} where
  abbrev pub guarded :
      List h.Cap → Io h.World A → h.World → Result String (Unit {0}) → h.World × Result String A
  guarded caps f w (ok _) = (drop_guard h caps (f w).0, (f w).1)
  guarded caps f w (err e) = (w, err e)

  unfoldable pub with_caps : List h.Cap → Io h.World A → Io h.World A
  unfolding raise_caps drop_guard
  with_caps caps f w = guarded caps f (raise_caps h caps w).0 (raise_caps h caps w).1
