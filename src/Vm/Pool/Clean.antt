-- ===== src/Vm/Pool/Clean.antt =====
-- Warm VMs have no programs.
use ebpf_assist.Prelude.{
  subst, ℕ, zero, suc, List, [], ◌∷◌, String, Option, none, some, Result, ok, err, string_key, All,
  ◌≡◌, refl,
}
use ebpf_assist.Table
use ebpf_assist.Vm.Protocol.{VmError, GuestResponse}
use ebpf_assist.Vm.Machine.{Machine}
use ebpf_assist.Vm.MicroVm.{
  MicroVm, VmState, settle, judge_reset, connect_loop, connected_or, then_ping, now_running, booted,
  launched,
}
use ebpf_assist.Vm.MicroVm
use ebpf_assist.Vm.Pool.{Manager, PoolConfig, new, activate, with_vm_async, with_found}

module _ (m : Machine) where
  open m use {World}

  abbrev pub IsEmpty : MicroVm m → Type 0
  IsEmpty vm = vm.programs ≡ []

  connected_or-programs :
      (q : World × Option m.Client) (vm : MicroVm m) (retry : World → MicroVm.Done m (Unit {0}))
      → ((v : World) → (retry v).1.programs ≡ vm.programs)
      → (connected_or m q vm retry).1.programs ≡ vm.programs
  connected_or-programs (v, some client) vm retry same = refl
  connected_or-programs (v, none) vm retry same = same (m.sleep 500 v)

  connect_loop-programs :
      (n : ℕ) (vm : MicroVm m) (w : World) → (connect_loop m n vm w).1.programs ≡ vm.programs
  unfolding connect_loop
  connect_loop-programs zero vm w = refl
  connect_loop-programs (suc n) vm w =
      connected_or-programs (then_ping m (m.connect (m.vsock_path vm.firecracker) w)) vm
        (connect_loop m n vm) (connect_loop-programs n vm)

  now_running-IsEmpty :
      (q : World × MicroVm m × Result VmError (Unit {0})) {vm : MicroVm m}
      → q.1.programs ≡ []
      → (now_running m q).1 ≡ ok vm
      → IsEmpty vm
  now_running-IsEmpty (w, v, ok _) {vm} empty e =
      let same : record v { state = VmState.running } ≡ vm = cc in subst IsEmpty same empty
  now_running-IsEmpty (w, v, err _) empty e = cc

  booted-IsEmpty :
      (id : String) (i : m.Instance) (q : World × Result VmError (Unit {0})) {vm : MicroVm m}
      → (booted m (MicroVm.fresh m id i) q).1 ≡ ok vm
      → IsEmpty vm
  unfolding MicroVm.connect
  booted-IsEmpty id i (w, ok _) e =
      now_running-IsEmpty (MicroVm.connect m (MicroVm.fresh m id i) w)
        (connect_loop-programs 10 (MicroVm.fresh m id i) w) e
  booted-IsEmpty id i (w, err _) e = cc

  launched-IsEmpty :
      (id : String) (q : World × Result VmError m.Instance) {vm : MicroVm m}
      → (launched m id q).1 ≡ ok vm
      → IsEmpty vm
  launched-IsEmpty id (w, ok i) e = booted-IsEmpty id i (m.boot i w) e
  launched-IsEmpty id (w, err _) e = cc

  pub create-IsEmpty :
      (config : m.VmConfig) (w : World) {vm : MicroVm m}
      → (MicroVm.create m config w).1 ≡ ok vm
      → IsEmpty vm
  unfolding MicroVm.create
  create-IsEmpty config w e =
      launched-IsEmpty (m.new_uuid w).1 (m.start config (m.new_uuid w).1 (m.new_uuid w).0) e

  -- A reset that succeeds leaves the same VM without programs.
  settle_reset :
      (vm : MicroVm m) (q : World × Result VmError GuestResponse)
      → ((settle m vm (judge_reset m vm) q).1.id ≡ vm.id)
        × ((settle m vm (judge_reset m vm) q).2 ≡ ok tt
            → (settle m vm (judge_reset m vm) q).1.programs ≡ [])
  unfolding judge_reset
  settle_reset vm (w, ok GuestResponse.reset_complete) = (refl, λ e. refl)
  settle_reset vm (w, ok (GuestResponse.error c x)) = (refl, λ e. cc)
  settle_reset vm (w, ok _) = (refl, λ e. cc)
  settle_reset vm (w, err x) = (refl, λ e. cc)

  pub reset_lem :
      (vm : MicroVm m) (w : World)
      → ((MicroVm.reset m vm w).1.id ≡ vm.id)
        × ((MicroVm.reset m vm w).2 ≡ ok tt → (MicroVm.reset m vm w).1.programs ≡ [])
  unfolding MicroVm.reset
  reset_lem vm w = settle_reset vm (MicroVm.exchange m vm _ w)

  -- A manager among any calls at once: each step is a part of a call that runs under the locks, and
  -- the calls may take turns after every step. What a call does between its locks, the creation, the
  -- reset and the end of a VM, does not touch the manager.
  pub data Shared : Manager m → Type 1 where
    made : (config : PoolConfig m) → Shared (new m config)
    -- `acquire`: a warm VM becomes active.
    popped :
        (mgr : Manager m) (vm : MicroVm m) (rest : List (MicroVm m))
        → mgr.warm_pool ≡ vm ∷ rest
        → Shared mgr
        → Shared (activate m (record mgr { warm_pool = rest }) vm)
    -- `acquire`: a VM that was created becomes active.
    inserted :
        (mgr : Manager m) (config : m.VmConfig) (vm : MicroVm m) (w : World)
        → (MicroVm.create m config w).1 ≡ ok vm
        → Shared mgr
        → Shared (activate m mgr vm)
    -- `release`
    removed :
        (mgr : Manager m) (id : String)
        → Shared mgr
        → Shared (record mgr { active_vms = Table.remove mgr.active_vms id })
    -- `release`: a VM whose reset has succeeded becomes warm.
    pushed :
        (mgr : Manager m) (vm : MicroVm m) (w : World)
        → (MicroVm.reset m vm w).2 ≡ ok tt
        → Shared mgr
        → Shared (record mgr { warm_pool = (MicroVm.reset m vm w).1 ∷ mgr.warm_pool })
    -- `with_vm` and `with_vm_async`, with any operation
    operated :
        (mgr : Manager m) (A : Type 0) (id : String)
        (f : MicroVm m → World → World × MicroVm m × Result VmError A) (w : World)
        → Shared mgr
        → Shared (with_vm_async m mgr id f w).1
    -- `warm_up`: a VM that was created becomes warm.
    stocked :
        (mgr : Manager m) (config : m.VmConfig) (vm : MicroVm m) (w : World)
        → (MicroVm.create m config w).1 ≡ ok vm
        → Shared mgr
        → Shared (record mgr { warm_pool = vm ∷ mgr.warm_pool })
    -- `shutdown_all`, one map after the other
    emptied : (mgr : Manager m) → Shared mgr → Shared (record mgr { active_vms = [] })
    cooled : (mgr : Manager m) → Shared mgr → Shared (record mgr { warm_pool = [] })

  with_found-warm_pool :
      {A : Type 0} (mgr : Manager m) (id : String) (o : Option (MicroVm m))
      (f : MicroVm m → World → World × MicroVm m × Result VmError A) (w : World)
      → (with_found m mgr id o f w).1.warm_pool ≡ mgr.warm_pool
  with_found-warm_pool mgr id none f w = refl
  with_found-warm_pool mgr id (some vm) f w = refl

  -- However the steps of any calls follow each other, warm VMs have no programs.
  pub shared-IsEmpty : (mgr : Manager m) → Shared mgr → All IsEmpty mgr.warm_pool
  unfolding new with_vm_async
  shared-IsEmpty _ (made config) = tt
  shared-IsEmpty _ (popped mgr vm rest e before) =
      let warm : All IsEmpty (vm ∷ rest) = subst (All IsEmpty) e (shared-IsEmpty mgr before) in
      warm.1
  shared-IsEmpty _ (inserted mgr config vm w e before) = shared-IsEmpty mgr before
  shared-IsEmpty _ (removed mgr id before) = shared-IsEmpty mgr before
  shared-IsEmpty _ (pushed mgr vm w resets before) =
      ((reset_lem vm w).1 resets, shared-IsEmpty mgr before)
  shared-IsEmpty _ (operated mgr A id f w before) =
      rw (with_found-warm_pool mgr id (Table.get mgr.active_vms id) f w) (shared-IsEmpty mgr before)
  shared-IsEmpty _ (stocked mgr config vm w e before) =
      (create-IsEmpty config w e, shared-IsEmpty mgr before)
  shared-IsEmpty _ (emptied mgr before) = shared-IsEmpty mgr before
  shared-IsEmpty _ (cooled mgr before) = tt
