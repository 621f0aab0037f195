-- ===== src/Vm/Pool.antt =====
-- crates/ebpf-assist-vm/src/manager.rs, `MicroVmManager`, and `PoolConfig` of config.rs. An operation
-- is what its method does when no other call of the manager comes between its locks; the steps of
-- calls that run at once are `Shared` in Clean and `Move` in Tasks. The warm pool is the list of its
-- VMs with the last pushed first, which is the one that `pop` takes.
pub mod Acquire
pub mod Bounds
pub mod Clean
pub mod Steps
pub mod Tasks
use ebpf_assist.Prelude.{
  ℕ, zero, suc, ◌+◌, ◌-◌, List, [], ◌∷◌, ◌++◌, String, Option, none, some, Result, ok, err,
  if◌then◌else◌, ltb, leb, length, string_key,
}
use ebpf_assist.Table.{Table}
use ebpf_assist.Table
use ebpf_assist.Common.{ProgramId, ProgramInfo}
use ebpf_assist.Vm.Protocol.{VmError, vm_not_found, pool_exhausted}
use ebpf_assist.Vm.Machine.{Machine}
use ebpf_assist.Vm.MicroVm.{MicroVm}
use ebpf_assist.Vm.MicroVm

pub record PoolStats : Type 0 where
  pub active_vms : ℕ
  pub warm_vms : ℕ
  pub max_total : ℕ

module _ (m : Machine) where
  open m use {World, VmConfig}

  pub record PoolConfig : Type 0 where
    pub min_warm : ℕ
    pub max_warm : ℕ
    pub max_total : ℕ
    pub idle_timeout : ℕ
    pub vm_config : VmConfig

  pub record Manager : Type 0 where
    pub config : PoolConfig
    pub active_vms : Table String (MicroVm m)
    pub warm_pool : List (MicroVm m)

  -- A method of the manager.
  abbrev pub Act : Type 0 → Type 0
  Act A = World → World × Manager × Result VmError A

  unfoldable pub new : PoolConfig → Manager
  new config = record { config = config; active_vms = []; warm_pool = [] }

  -- `active.insert(id, vm)`
  abbrev pub activate : Manager → MicroVm m → Manager
  activate mgr vm = record mgr { active_vms = Table.insert mgr.active_vms vm.id vm }

  abbrev pub total : Manager → ℕ
  total mgr = Table.len mgr.active_vms + length mgr.warm_pool

  abbrev pub use_created :
      Manager → World × Result VmError (MicroVm m) → World × Manager × Result VmError String
  use_created mgr (w, ok vm) = (w, activate mgr vm, ok vm.id)
  use_created mgr (w, err e) = (w, mgr, err e)

  -- `acquire` with an empty warm pool
  unfoldable pub acquire_new : Manager → Act String
  unfolding MicroVm.create
  acquire_new mgr w =
      if leb mgr.config.max_total (total mgr)
      then (w, mgr, err (pool_exhausted mgr.config.max_total))
      else use_created mgr (MicroVm.create m mgr.config.vm_config w)

  abbrev pub acquire_from : Manager → List (MicroVm m) → Act String
  acquire_from mgr [] w = acquire_new mgr w
  acquire_from mgr (vm ∷ rest) w = (w, activate (record mgr { warm_pool = rest }) vm, ok vm.id)

  unfoldable pub acquire : Manager → Act String
  unfolding acquire_new
  acquire mgr w = acquire_from mgr mgr.warm_pool w

  -- After the reset of a released VM
  abbrev pub pool_reset :
      Manager
      → World × MicroVm m × Result VmError (Unit {0})
      → World × Manager × Result VmError (Unit {0})
  unfolding MicroVm.shutdown
  pool_reset mgr (w, vm, ok _) = (w, record mgr { warm_pool = vm ∷ mgr.warm_pool }, ok tt)
  pool_reset mgr (w, vm, err e) = (MicroVm.shutdown m vm w, mgr, ok tt)

  unfoldable pub give_back : Manager → MicroVm m → Act (Unit {0})
  unfolding MicroVm.reset pool_reset
  give_back mgr vm w =
      if ltb (length mgr.warm_pool) mgr.config.max_warm
      then pool_reset mgr (MicroVm.reset m vm w)
      else (MicroVm.shutdown m vm w, mgr, ok tt)

  abbrev pub release_found : Manager → (id : String) → Option (MicroVm m) → Act (Unit {0})
  unfolding give_back
  release_found mgr id none w = (w, mgr, err (vm_not_found id))
  release_found mgr id (some vm) w =
      give_back (record mgr { active_vms = Table.remove mgr.active_vms id }) vm w

  unfoldable pub release : Manager → (id : String) → Act (Unit {0})
  unfolding give_back
  release mgr id w = release_found mgr id (Table.get mgr.active_vms id) w

  abbrev put_back :
      {A : Type 0} → Manager → (id : String) → MicroVm.Done m A → World × Manager × Result VmError A
  put_back mgr id (w, vm, r) = (w, record mgr { active_vms = Table.insert mgr.active_vms id vm }, r)

  abbrev pub with_found :
      {A : Type 0}
      → Manager
      → (id : String) → Option (MicroVm m)
      → (MicroVm m → World → MicroVm.Done m A)
      → Act A
  with_found mgr id none f w = (w, mgr, err (vm_not_found id))
  with_found mgr id (some vm) f w = put_back mgr id (f vm w)

  -- `with_vm_async`: the operation changes the VM in its place in the map.
  unfoldable pub with_vm_async :
      {A : Type 0} → Manager → (id : String) → (MicroVm m → World → MicroVm.Done m A) → Act A
  with_vm_async mgr id f w = with_found mgr id (Table.get mgr.active_vms id) f w

  -- `with_vm`, whose operation cannot fail
  unfoldable pub with_vm :
      {A : Type 0} → Manager → (id : String) → (MicroVm m → World → World × MicroVm m × A) → Act A
  unfolding with_vm_async
  with_vm mgr id f w = with_vm_async mgr id (λ vm v. let (v', vm', a) = f vm v in (v', vm', ok a)) w

  unfoldable pub load_program :
      Manager → (id : String) (bytes : List ℕ) (name : String) → Act (ProgramId × ProgramInfo)
  unfolding with_vm_async MicroVm.load_program
  load_program mgr id bytes name w =
      with_vm_async mgr id (λ vm. MicroVm.load_program m vm bytes name) w

  abbrev pub list_active : Manager → List String
  list_active mgr = Table.keys mgr.active_vms

  unfoldable pub stats : Manager → PoolStats
  stats mgr = record {
    active_vms = Table.len mgr.active_vms;
    warm_vms = length mgr.warm_pool;
    max_total = mgr.config.max_total;
  }

  abbrev pub push_created :
      Manager
      → World × Result VmError (MicroVm m)
      → (Manager → Act (Unit {0}))
      → World × Manager × Result VmError (Unit {0})
  push_created mgr (w, ok vm) more = more (record mgr { warm_pool = vm ∷ mgr.warm_pool }) w
  push_created mgr (w, err e) more = (w, mgr, err e)

  -- The loop of `warm_up`, with the VMs that are still to be created.
  unfoldable pub warm_loop : ℕ → Manager → Act (Unit {0})
  unfolding MicroVm.create
  warm_loop zero mgr w = (w, mgr, ok tt)
  warm_loop (suc n) mgr w = push_created mgr (MicroVm.create m mgr.config.vm_config w) (warm_loop n)

  -- `saturating_sub` is the subtraction of ℕ.
  unfoldable pub warm_up : Manager → (count : ℕ) → Act (Unit {0})
  unfolding warm_loop
  warm_up mgr count w = warm_loop (count - length mgr.warm_pool) mgr w

  abbrev shutdown_each : List (MicroVm m) → World → World
  unfolding MicroVm.shutdown
  shutdown_each [] w = w
  shutdown_each (vm ∷ vms) w = shutdown_each vms (MicroVm.shutdown m vm w)

  abbrev pub oldest_first : List (MicroVm m) → List (MicroVm m)
  oldest_first [] = []
  oldest_first (vm ∷ vms) = oldest_first vms ++ vm ∷ []

  unfoldable pub shutdown_all : Manager → Act (Unit {0})
  unfolding shutdown_each
  shutdown_all mgr w = (
    shutdown_each (oldest_first mgr.warm_pool) (shutdown_each (Table.values mgr.active_vms) w),
    record mgr { active_vms = []; warm_pool = [] },
    ok tt,
  )
