-- ===== src/Vm/Pool/Bounds.antt =====
-- How many VMs the manager holds.
use ebpf_assist.Prelude.{
  ℕ, zero, suc, ◌+◌, ◌-◌, ◌≤◌, ◌<◌, List, [], ◌∷◌, String, Option, none, some, Result, ok, err, leb,
  ltb, length, string_key, ◌≡◌, refl, ap, ◌∙◌, arith, Bool-cases, inl, inr,
}
use ebpf_assist.Table
use ebpf_assist.Table.Laws.{len-insert_le, len-insert_there, len-remove}
use ebpf_assist.Vm.Protocol.{VmError}
use ebpf_assist.Vm.Machine.{Machine}
use ebpf_assist.Vm.MicroVm.{MicroVm}
use ebpf_assist.Vm.MicroVm
use ebpf_assist.Vm.Pool.{
  Manager, PoolConfig, new, total, acquire, acquire_from, acquire_new, use_created, release,
  release_found, give_back, pool_reset, with_vm_async, with_found, warm_up, warm_loop, push_created,
  shutdown_all,
}

module _ (m : Machine) where
  open m use {World}

  abbrev pub IsBounded : Manager m → Type 0
  IsBounded mgr = total m mgr ≤ mgr.config.max_total

  -- The bound is kept, under the same configuration.
  pub record Kept (mgr after : Manager m) : Type 0 where
    pub config : after.config ≡ mgr.config
    pub bounded : IsBounded mgr → IsBounded after

  use_created-Kept :
      (mgr : Manager m) (q : World × Result VmError (MicroVm m))
      → total m mgr < mgr.config.max_total
      → Kept mgr (use_created m mgr q).1
  use_created-Kept mgr (w, ok vm) room = record {
    config = refl;
    bounded = λ b. omega (arith, room, len-insert_le mgr.active_vms vm.id vm);
  }
  use_created-Kept mgr (w, err e) room = record { config = refl; bounded = λ b. b }

  acquire_from-Kept :
      (mgr : Manager m) (pool : List (MicroVm m)) (w : World)
      → mgr.warm_pool ≡ pool
      → Kept mgr (acquire_from m mgr pool w).1
  unfolding acquire_new
  acquire_from-Kept mgr [] w e = elim (Bool-cases (leb mgr.config.max_total (total m mgr))) [
    | inl full ↦ rw full (record { config = refl; bounded = λ b. b })
    | inr free ↦
        rw free (use_created-Kept mgr (MicroVm.create m mgr.config.vm_config w) (ground arith))
  ]
  acquire_from-Kept mgr (vm ∷ rest) w e = record {
    config = refl;
    bounded = λ b.
        let size = ap length e in omega (arith, b, size, len-insert_le mgr.active_vms vm.id vm);
  }

  pool_reset-Kept :
      (mgr : Manager m) (q : World × MicroVm m × Result VmError (Unit {0}))
      → total m mgr < mgr.config.max_total
      → Kept mgr (pool_reset m mgr q).1
  unfolding pool_reset
  pool_reset-Kept mgr (w, vm, ok _) room = record {
    config = refl;
    bounded = λ b. omega (arith, room);
  }
  pool_reset-Kept mgr (w, vm, err e) room = record { config = refl; bounded = λ b. b }

  give_back-Kept :
      (mgr : Manager m) (vm : MicroVm m) (w : World)
      → total m mgr < mgr.config.max_total
      → Kept mgr (give_back m mgr vm w).1
  unfolding give_back
  give_back-Kept mgr vm w room =
      elim (Bool-cases (ltb (length mgr.warm_pool) mgr.config.max_warm)) [
        | inl warm ↦ rw warm (pool_reset-Kept mgr (MicroVm.reset m vm w) room)
        | inr full ↦ rw full (record { config = refl; bounded = λ b. b })
      ]

  give_back-config :
      (mgr : Manager m) (vm : MicroVm m) (w : World) → (give_back m mgr vm w).1.config ≡ mgr.config
  unfolding give_back
  give_back-config mgr vm w = ground arith

  release_found-Kept :
      (mgr : Manager m) (id : String) (o : Option (MicroVm m)) (w : World)
      → Table.get mgr.active_vms id ≡ o
      → Kept mgr (release_found m mgr id o w).1
  unfolding release_found
  release_found-Kept mgr id none w e = record { config = refl; bounded = λ b. b }
  release_found-Kept mgr id (some vm) w e =
      let less = record mgr { active_vms = Table.remove mgr.active_vms id } in
      record {
        config = give_back-config less vm w;
        bounded = λ b.
            (give_back-Kept less vm w (omega (arith, b, len-remove mgr.active_vms id vm e))).bounded
              (omega (arith, b, len-remove mgr.active_vms id vm e));
      }

  with_found-Kept :
      {A : Type 0} (mgr : Manager m) (id : String) (o : Option (MicroVm m))
      (f : MicroVm m → World → World × MicroVm m × Result VmError A) (w : World)
      → Table.get mgr.active_vms id ≡ o
      → Kept mgr (with_found m mgr id o f w).1
  with_found-Kept mgr id none f w e = record { config = refl; bounded = λ b. b }
  with_found-Kept mgr id (some vm) f w e = record {
    config = refl;
    bounded = λ b. omega (arith, b, len-insert_there mgr.active_vms id vm (f vm w).1 e);
  }

  -- What a warm-up has done to the manager, when it ends and when it succeeds.
  pub record Warmed (n : ℕ) (mgr after : Manager m) (r : Result VmError (Unit {0})) : Type 0 where
    pub config : after.config ≡ mgr.config
    pub active : after.active_vms ≡ mgr.active_vms
    pub at_most : length after.warm_pool ≤ length mgr.warm_pool + n
    pub filled : r ≡ ok tt → length after.warm_pool ≡ length mgr.warm_pool + n

  push_created-Warmed :
      (n : ℕ) (mgr : Manager m) (q : World × Result VmError (MicroVm m))
      → ((other : Manager m) (v : World)
          → Warmed n other (warm_loop m n other v).1 (warm_loop m n other v).2)
      → Warmed
          (suc n)
          mgr
          (push_created m mgr q (warm_loop m n)).1
          (push_created m mgr q (warm_loop m n)).2
  push_created-Warmed n mgr (v, ok vm) more =
      let rest = more (record mgr { warm_pool = vm ∷ mgr.warm_pool }) v in
      record {
        config = rest.config;
        active = rest.active;
        at_most = omega (arith, rest.at_most);
        filled = λ e. rest.filled e ∙ omega arith;
      }
  push_created-Warmed n mgr (v, err e) more = record {
    config = refl;
    active = refl;
    at_most = omega arith;
    filled = λ bad. cc;
  }

  warm_loop-Warmed :
      (n : ℕ) (mgr : Manager m) (w : World)
      → Warmed n mgr (warm_loop m n mgr w).1 (warm_loop m n mgr w).2
  unfolding warm_loop
  warm_loop-Warmed zero mgr w = record {
    config = refl;
    active = refl;
    at_most = omega arith;
    filled = λ e. omega arith;
  }
  warm_loop-Warmed (suc n) mgr w =
      push_created-Warmed n mgr (MicroVm.create m mgr.config.vm_config w)
        (λ other v. warm_loop-Warmed n other v)

  -- A warm-up never touches the active VMs, and one that succeeds leaves exactly `count` VMs in the
  -- warm pool, or as many as there were if there were more. The limit on the total plays no part.
  pub warm_up-Warmed :
      (mgr : Manager m) (count : ℕ) (w : World)
      → Warmed
          (count - length mgr.warm_pool)
          mgr
          (warm_up m mgr count w).1
          (warm_up m mgr count w).2
  unfolding warm_up
  warm_up-Warmed mgr count w = warm_loop-Warmed (count - length mgr.warm_pool) mgr w

  -- A manager after some calls, each finished before the next one starts. `with_vm_async` runs any
  -- operation.
  pub data Used : Manager m → Type 1 where
    created : (config : PoolConfig m) → Used (new m config)
    acquired : (mgr : Manager m) (w : World) → Used mgr → Used (acquire m mgr w).1
    released : (mgr : Manager m) (id : String) (w : World) → Used mgr → Used (release m mgr id w).1
    operated :
        (mgr : Manager m) (A : Type 0) (id : String)
        (f : MicroVm m → World → World × MicroVm m × Result VmError A) (w : World)
        → Used mgr
        → Used (with_vm_async m mgr id f w).1
    warmed : (mgr : Manager m) (count : ℕ) (w : World) → Used mgr → Used (warm_up m mgr count w).1
    ended : (mgr : Manager m) (w : World) → Used mgr → Used (shutdown_all m mgr w).1

  -- Each warm-up has asked for no more VMs than fit beside those that were active.
  abbrev pub WarmUpsFit : {mgr : Manager m} → Used mgr → Type 0
  WarmUpsFit (created config) = Unit {0}
  WarmUpsFit (acquired mgr w before) = WarmUpsFit before
  WarmUpsFit (released mgr id w before) = WarmUpsFit before
  WarmUpsFit (operated mgr A id f w before) = WarmUpsFit before
  WarmUpsFit (warmed mgr count w before) =
      (Table.len mgr.active_vms + count ≤ mgr.config.max_total) × WarmUpsFit before
  WarmUpsFit (ended mgr w before) = WarmUpsFit before

  -- If the calls of a manager come one after another, so that no call runs between the lock sections
  -- of another one, and if each warm-up asks for no more VMs than fit beside those that are active,
  -- the manager holds at most `max_total` VMs, active and warm together, after every call.
  pub used-IsBounded : (mgr : Manager m) (used : Used mgr) → WarmUpsFit used → IsBounded mgr
  unfolding new acquire release with_vm_async shutdown_all
  used-IsBounded _ (created config) fit = omega arith
  used-IsBounded _ (acquired mgr w before) fit =
      (acquire_from-Kept mgr mgr.warm_pool w refl).bounded (used-IsBounded mgr before fit)
  used-IsBounded _ (released mgr id w before) fit =
      (release_found-Kept mgr id (Table.get mgr.active_vms id) w refl).bounded
        (used-IsBounded mgr before fit)
  used-IsBounded _ (operated mgr A id f w before) fit =
      (with_found-Kept mgr id (Table.get mgr.active_vms id) f w refl).bounded
        (used-IsBounded mgr before fit)
  used-IsBounded _ (warmed mgr count w before) (fits, fit) =
      let u = warm_up-Warmed mgr count w in
      rw (u.active, u.config) (omega (arith, u.at_most, fits, used-IsBounded mgr before fit))
  used-IsBounded _ (ended mgr w before) fit = omega arith
