-- ===== src/Cli/MicroVms/Killed.antt =====
-- What is left of the microVM of an isolated load.
use ebpf_assist.Prelude.{
  Option, some, none, ℕ, Bool, String, List, Result, ok, err, ◌≡◌, ◌∙◌, refl, string_key,
  str_eq_refl,
}
use ebpf_assist.Table
use ebpf_assist.Common.{ProgramId, ProgramInfo}
use ebpf_assist.Vm.Protocol.{VmError, GuestResponse, GuestCommand}
use ebpf_assist.Vm.Machine.{Machine}
use ebpf_assist.Vm.MicroVm.{MicroVm}
use ebpf_assist.Vm.MicroVm
use ebpf_assist.Vm.Pool.{Manager, use_created, activate}
use ebpf_assist.Vm.Pool
use ebpf_assist.Vm.Config.{default_pool}
use ebpf_assist.Cli.Output.{Run, success}
use ebpf_assist.Cli.MicroVms.{
  Files, load_isolated, not_ready, if_ready, with_bytes, acquired, manager, drop_manager, reported,
}

module _ (m : Machine) (show : ℕ → String) (vm_config : m.VmConfig) where
  open m use {World}

  settle-firecracker :
      (vm : MicroVm m) (r : World × Result VmError GuestResponse)
      → (MicroVm.settle m vm (MicroVm.judge_load m vm) r).1.firecracker ≡ vm.firecracker
  unfolding MicroVm.judge_load
  settle-firecracker vm (w, ok (GuestResponse.loaded id info)) = refl
  settle-firecracker vm (w, ok (GuestResponse.error code message)) = refl
  settle-firecracker vm (w, ok _) = refl
  settle-firecracker vm (w, err e) = refl

  load_program-firecracker :
      (vm : MicroVm m) (bytes : List ℕ) (name : String) (w : World)
      → (MicroVm.load_program m vm bytes name w).1.firecracker ≡ vm.firecracker
  unfolding MicroVm.load_program
  load_program-firecracker vm bytes name w =
      settle-firecracker vm (MicroVm.exchange m vm (GuestCommand.load bytes name) w)

  -- The manager that holds one VM.
  abbrev holding : MicroVm m → Manager m
  holding vm = activate m (manager m show vm_config) vm

  reported-world :
      (json_output : Bool) (vm_id : String) (w : World) (mgr : Manager m)
      (r : Result VmError (ProgramId × ProgramInfo))
      → (reported m show vm_config json_output vm_id (w, mgr, r)).0
        ≡ drop_manager m show vm_config mgr w
  unfolding reported
  reported-world json_output vm_id w mgr (ok (prog_id, info)) = refl
  reported-world json_output vm_id w mgr (err e) = refl

  -- The drop of the manager after an operation on its one VM.
  put_back-drop :
      (vm : MicroVm m) (d : World × MicroVm m × Result VmError (ProgramId × ProgramInfo))
      → d.1.firecracker ≡ vm.firecracker
      → drop_manager m show vm_config
          (record (holding vm) { active_vms = Table.insert (holding vm).active_vms vm.id d.1 })
          d.0
        ≡ m.drop_instance vm.firecracker d.0
  unfolding drop_manager manager Pool.new default_pool Table.insert
  put_back-drop vm (w, vm', r) same = rw (str_eq_refl vm.id, same) refl

  reported-drop :
      (json_output : Bool) (vm : MicroVm m) (bytes : List ℕ) (name : String) (w : World)
      → (v : World) × ((reported m show vm_config json_output vm.id
            (Pool.load_program m (holding vm) vm.id bytes name w)).0
          ≡ m.drop_instance vm.firecracker v)
  unfolding Pool.load_program manager Pool.new Table.get Table.insert
  reported-drop json_output vm bytes name w =
      let d = MicroVm.load_program m vm bytes name w in
      (
        d.0,
        rw (str_eq_refl vm.id) (
            reported-world json_output vm.id d.0 _ d.2
            ∙ put_back-drop vm d (load_program-firecracker vm bytes name w)),
      )

  -- The run of a command ends with success only after a VM was created and, as the command ended,
  -- its process was killed.
  abbrev pub Killed : World × Result VmError (MicroVm m) → World × Run → Type 0
  Killed created run =
      (vm : MicroVm m) × (v : World) × (created.1 ≡ ok vm)
      × (run.0 ≡ m.drop_instance vm.firecracker v)

  created-Killed :
      (json_output : Bool) (bytes : List ℕ) (name : String) (r : World × Result VmError (MicroVm m))
      → (acquired m show vm_config json_output bytes name
          (use_created m (manager m show vm_config) r)).1.ended
        ≡ success
      → Killed r (
          acquired m show vm_config json_output bytes name
            (use_created m (manager m show vm_config) r))
  unfolding acquired
  created-Killed json_output bytes name (w, ok vm) good =
      let (v, dropped) = reported-drop json_output vm bytes name w in (vm, v, refl, dropped)
  created-Killed json_output bytes name (w, err e) good = cc

  read-Killed :
      (json_output : Bool) (path name : String) (read : Result String (List ℕ)) (w : World)
      → (with_bytes m show vm_config json_output path name read w).1.ended ≡ success
      → Killed
          (MicroVm.create m vm_config w)
          (with_bytes m show vm_config json_output path name read w)
  unfolding with_bytes Pool.acquire Pool.acquire_new manager Pool.new default_pool
  read-Killed json_output path name (ok bytes) w good =
      created-Killed json_output bytes name (MicroVm.create m vm_config w) good
  read-Killed json_output path name (err e) w good = cc

  ready-Killed :
      (files : Files World) (path : String) (program_name : Option String) (json_output : Bool)
      (missing : Option String) (w : World)
      → (if_ready m show vm_config files path program_name json_output missing w).1.ended ≡ success
      → Killed
          (MicroVm.create m vm_config w)
          (if_ready m show vm_config files path program_name json_output missing w)
  unfolding if_ready
  ready-Killed files path program_name json_output (some e) w good = cc
  ready-Killed files path program_name json_output none w good =
      read-Killed json_output path _ (files.read path w) w good

  -- Where `load --isolate` succeeds, it has created a microVM, and the last thing that happens is
  -- that the drop of its manager kills the process of this microVM: none is left for the commands
  -- that it tells its user to run next.
  pub load_isolated-Killed :
      (files : Files World) (path : String) (program_name : Option String) (json_output : Bool)
      (w : World)
      → (load_isolated m show vm_config files path program_name json_output w).1.ended ≡ success
      → Killed
          (MicroVm.create m vm_config w)
          (load_isolated m show vm_config files path program_name json_output w)
  unfolding load_isolated
  load_isolated-Killed files path program_name json_output w good =
      ready-Killed files path program_name json_output (not_ready m show vm_config files path) w
        good
