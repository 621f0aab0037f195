-- ===== src/Vm/Pool/Acquire.antt =====
-- What a user of the pool is handed: a VM without programs, under its own id.
use ebpf_assist.Prelude.{
  subst, ◌<◌, true, List, [], ◌∷◌, String, some, Result, ok, err, leb, ltb, length, string_key, All,
  ◌≡◌, refl, ap, ◌∙◌, arith, Bool-cases, inl, inr,
}
use ebpf_assist.Table
use ebpf_assist.Table.Laws.{get-insert, beq_refl}
use ebpf_assist.Vm.Protocol.{VmError}
use ebpf_assist.Vm.Machine.{Machine}
use ebpf_assist.Vm.MicroVm.{
  MicroVm, VmState, settle, judge_reset, connect_loop, connected_or, then_ping, now_running, booted,
  launched,
}
use ebpf_assist.Vm.MicroVm
use ebpf_assist.Vm.Pool.{
  Manager, total, activate, acquire, acquire_from, acquire_new, use_created, release, release_found,
  give_back, pool_reset,
}
use ebpf_assist.Vm.Pool.Clean.{IsEmpty, create-IsEmpty, reset_lem, Shared, shared-IsEmpty}

module _ (m : Machine) where
  open m use {World}

  -- The VM that a successful `acquire` has filed under the id it returns.
  pub record Handed (id : String) (mgr : Manager m) : Type 0 where
    pub vm : MicroVm m
    pub found : Table.get mgr.active_vms id ≡ some vm
    pub own_id : vm.id ≡ id
    pub empty : vm.programs ≡ []

  activate-Handed :
      (mgr : Manager m) (vm : MicroVm m) {id : String} {r : Result VmError String}
      → IsEmpty m vm
      → ok vm.id ≡ r
      → r ≡ ok id
      → Handed id (activate m mgr vm)
  activate-Handed mgr vm {id} empty e f =
      let same : vm.id ≡ id = cc in
      record {
        vm = vm;
        found = rw (get-insert, same, beq_refl ⦃e = string_key⦄ id) refl;
        own_id = same;
        empty = empty;
      }

  use_created-Handed :
      (mgr : Manager m) (q : World × Result VmError (MicroVm m)) {id : String}
      → ((vm : MicroVm m) → q.1 ≡ ok vm → IsEmpty m vm)
      → (use_created m mgr q).2 ≡ ok id
      → Handed id (use_created m mgr q).1
  use_created-Handed mgr (w, ok vm) empty e = activate-Handed mgr vm (empty vm refl) refl e
  use_created-Handed mgr (w, err x) empty e = cc

  acquire_from-Handed :
      (mgr : Manager m) (pool : List (MicroVm m)) (w : World) {id : String}
      → All (IsEmpty m) pool
      → (acquire_from m mgr pool w).2 ≡ ok id
      → Handed id (acquire_from m mgr pool w).1
  unfolding acquire_new
  acquire_from-Handed mgr [] w empty e =
      elim (Bool-cases (leb mgr.config.max_total (total m mgr))) [
        | inl full ↦ let refused = rw full at e in cc
        | inr free ↦ rw free (
            use_created-Handed mgr (MicroVm.create m mgr.config.vm_config w)
              (λ vm c. create-IsEmpty m mgr.config.vm_config w c) (rw free at e))
      ]
  acquire_from-Handed mgr (vm ∷ rest) w empty e =
      activate-Handed (record mgr { warm_pool = rest }) vm empty.0 refl e

  -- However the lock sections of any calls have followed each other, warm-ups of any size and
  -- operations that change a VM in any way among them, an `acquire` that then runs by itself hands
  -- out a VM that has no programs left from an earlier user, and that is filed under the id that is
  -- returned, which is its own.
  pub acquire-Handed :
      (mgr : Manager m) (w : World) (id : String)
      → Shared m mgr
      → (acquire m mgr w).2 ≡ ok id
      → Handed id (acquire m mgr w).1
  unfolding acquire
  acquire-Handed mgr w id before e =
      acquire_from-Handed mgr mgr.warm_pool w (shared-IsEmpty m mgr before) e

  pool_reset-acquire :
      (mgr : Manager m) (q : World × MicroVm m × Result VmError (Unit {0})) (v : World)
      → q.2 ≡ ok tt
      → ((acquire m (pool_reset m mgr q).1 v).2 ≡ ok q.1.id)
        × (Table.get (acquire m (pool_reset m mgr q).1 v).1.active_vms q.1.id ≡ some q.1)
        × ((acquire m (pool_reset m mgr q).1 v).1.warm_pool ≡ mgr.warm_pool)
  unfolding acquire pool_reset
  pool_reset-acquire mgr (w, vm, ok _) v e =
      (refl, rw (get-insert, beq_refl ⦃e = string_key⦄ vm.id) refl, refl)
  pool_reset-acquire mgr (w, vm, err x) v e = cc

  -- Whatever the manager holds, a VM that is found under an id and released while the warm pool has
  -- room, and whose reset succeeds, is the one that an `acquire` right after hands out: it answers
  -- with the VM's own id, under which the map then holds the VM as the reset has left it, without
  -- programs, and the warm pool is what it was.
  pub acquire-release :
      (mgr : Manager m) (id : String) (vm : MicroVm m) (w v : World)
      → Table.get mgr.active_vms id ≡ some vm
      → length mgr.warm_pool < mgr.config.max_warm
      → (MicroVm.reset m vm w).2 ≡ ok tt
      → ((acquire m (release m mgr id w).1 v).2 ≡ ok vm.id)
        × (Table.get (acquire m (release m mgr id w).1 v).1.active_vms vm.id
            ≡ some (MicroVm.reset m vm w).1)
        × ((MicroVm.reset m vm w).1.programs ≡ [])
        × ((acquire m (release m mgr id w).1 v).1.warm_pool ≡ mgr.warm_pool)
  unfolding release release_found give_back
  acquire-release mgr id vm w v found room resets =
      let less = record mgr { active_vms = Table.remove mgr.active_vms id } in
      let warm : ltb (length mgr.warm_pool) mgr.config.max_warm ≡ true = ground arith in
      let (id_same, programs) = reset_lem m vm w in
      let (handed, found', pool) = pool_reset-acquire less (MicroVm.reset m vm w) v resets in
      rw (found, warm)
        (
          handed ∙ ap ok id_same,
          subst
              (λ key.
                Table.get (acquire m (pool_reset m less (MicroVm.reset m vm w)).1 v).1.active_vms
                  key
                ≡ some (MicroVm.reset m vm w).1)
              id_same found',
          programs resets,
          pool,
        )
