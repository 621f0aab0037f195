-- ===== src/Cli/MicroVms.antt =====
-- crates/ebpf-assist/src/vm.rs: the commands on microVMs, but for `vm status`. Each
-- makes a manager of its own, which is dropped with its VMs when the command ends. The file system
-- and the directories of the user are the fields of `Files`.
pub mod Environment
pub mod Killed
pub mod Ready
pub mod Tests
use ebpf_assist.Prelude.{
  ℕ, Bool, true, false, not, ◌&&◌, ◌||◌, String, ◌<>◌, List, [], ◌∷◌, ◌++◌, map, Option, none, some,
  Result, ok, err, if◌then◌else◌,
}
use ebpf_assist.Table.{Table}
use ebpf_assist.Json.{Json, obj, arr, bool, number, string}
use ebpf_assist.Common.{ProgramId, ProgramInfo, debug_type}
use ebpf_assist.Vm.Protocol.{VmError}
use ebpf_assist.Vm.Machine.{Machine}
use ebpf_assist.Vm.MicroVm.{MicroVm}
use ebpf_assist.Vm.Pool.{Manager, PoolConfig, PoolStats, list_active}
use ebpf_assist.Vm.Pool
use ebpf_assist.Vm.Config.{default_pool}
use ebpf_assist.Cli.Output.{Run, Line, out, prints_either, bail, pad, repeat}

pub record Files (World : Type 0) : Type 0 where
  pub data_local_dir : Option String
  pub is_file : String → Bool
  pub exists : String → Bool
  -- Whether it opens for reading and writing
  pub can_open : String → Bool
  pub read : String → World → Result String (List ℕ)
  pub file_stem : String → Option String

abbrev vm_json : String → Json
vm_json id = obj (("id", string id) ∷ ("state", string "Running") ∷ [])

abbrev vm_row : String → String → Line
unfolding pad
vm_row id state = out (pad 36 id <> (" " <> pad 15 state))

abbrev list_lines : List String → List Line
unfolding vm_row repeat
list_lines [] =
    out "No MicroVMs running"
    ∷ out ""
    ∷ out "Start one with: ebpf-assist load --isolate <program.o>"
    ∷ []
list_lines (id ∷ ids) =
    vm_row "VM ID" "STATE" ∷ out (repeat 55 "-") ∷ map (λ i. vm_row i "Running") (id ∷ ids)

-- The JSON document of `vm list`
abbrev pub list_document : List String → Json
list_document ids = obj (("vms", arr (map vm_json ids)) ∷ [])

-- `unwrap_or_else(|| PathBuf::from("."))`
abbrev pub or_here : Option String → String
or_here none = "."
or_here (some dir) = dir

module _ (m : Machine) (show : ℕ → String) (vm_config : m.VmConfig) where
  open m use {World}

  -- `MicroVmManager::new(PoolConfig::default())`
  unfoldable pub manager : Manager m
  unfolding default_pool Pool.new
  manager = Pool.new m (default_pool m vm_config)

  -- The drop of a manager: that of each of its VMs kills the process.
  abbrev pub drop_vms : List (MicroVm m) → World → World
  drop_vms [] w = w
  drop_vms (vm ∷ vms) w = drop_vms vms (m.drop_instance vm.firecracker w)

  abbrev vms_of : Table String (MicroVm m) → List (MicroVm m)
  vms_of [] = []
  vms_of ((id, vm) ∷ rest) = vm ∷ vms_of rest

  unfoldable pub drop_manager : Manager m → World → World
  drop_manager mgr w = drop_vms mgr.warm_pool (drop_vms (vms_of mgr.active_vms) w)

  unfoldable pub list : (json_output : Bool) → Run
  unfolding manager list_lines
  list json_output =
      let vms = list_active m manager in
      prints_either json_output (list_document vms) (list_lines vms)

  abbrev stopped :
      (vm_id : String) (json_output : Bool)
      → World × Manager m × Result VmError (Unit {0})
      → World × Run
  unfolding drop_manager
  stopped vm_id json_output (w, mgr, ok _) = (
    drop_manager mgr w,
    prints_either json_output (obj (("success", bool true) ∷ ("vm_id", string vm_id) ∷ []))
        (out ("Stopped VM " <> vm_id) ∷ []),
  )
  stopped vm_id json_output (w, mgr, err e) =
      (drop_manager mgr w, bail ("Failed to stop VM " <> vm_id))

  unfoldable pub stop : (vm_id : String) (json_output : Bool) → World → World × Run
  unfolding manager stopped Pool.release
  stop vm_id json_output w = stopped vm_id json_output (Pool.release m manager vm_id w)

  unfoldable pub pool_status : (json_output : Bool) → Run
  unfolding manager Pool.stats repeat
  pool_status json_output =
      let stats = Pool.stats m manager in
      prints_either json_output
        (obj (
          ("max_warm", number manager.config.max_warm)
          ∷ ("max_total", number manager.config.max_total)
          ∷ ("active_vms", number stats.active_vms)
          ∷ ("warm_vms", number stats.warm_vms)
          ∷ []))
        (out "VM Pool Status"
          ∷ out (repeat 30 "=")
          ∷ out "Configuration:"
          ∷ out ("  Max warm VMs: " <> show manager.config.max_warm)
          ∷ out ("  Max total VMs: " <> show manager.config.max_total)
          ∷ out ""
          ∷ out "Current state:"
          ∷ out ("  Active VMs: " <> show stats.active_vms)
          ∷ out ("  Warm VMs:   " <> show stats.warm_vms)
          ∷ [])

  abbrev pub loaded_document : (vm_id : String) → ProgramId → ProgramInfo → Json
  unfolding debug_type
  loaded_document vm_id prog_id info = obj (
      ("success", bool true)
      ∷ ("isolated", bool true)
      ∷ ("vm_id", string vm_id)
      ∷ ("program_id", number prog_id)
      ∷ ("name", string info.name)
      ∷ ("type", string (debug_type info.program_type))
      ∷ [])

  abbrev loaded_lines : (vm_id : String) → ProgramId → ProgramInfo → List Line
  unfolding debug_type
  loaded_lines vm_id prog_id info =
      out "Acquiring MicroVM..."
      ∷ out ("VM acquired: " <> vm_id)
      ∷ out "Sending program to guest agent..."
      ∷ out ""
      ∷ out "Loaded program in isolated MicroVM:"
      ∷ out ("  VM ID:   " <> vm_id)
      ∷ out ("  Prog ID: " <> show prog_id)
      ∷ out ("  Name:    " <> info.name)
      ∷ out ("  Type:    " <> debug_type info.program_type)
      ∷ out ""
      ∷ out "The program is running in a separate kernel."
      ∷ out "Any crashes will not affect your host system."
      ∷ out ""
      ∷ out ("Next: ebpf-assist attach " <> (show prog_id <> " <target>"))
      ∷ out ("Stop VM: ebpf-assist vm stop " <> vm_id)
      ∷ []

  -- An error after these lines
  abbrev failed_after : (json_output : Bool) → List Line → String → Run
  failed_after json_output lines e = record (bail e) { lines = if json_output then [] else lines }

  abbrev pub reported :
      (json_output : Bool) (vm_id : String)
      → World × Manager m × Result VmError (ProgramId × ProgramInfo)
      → World × Run
  unfolding drop_manager loaded_lines loaded_document
  reported json_output vm_id (w, mgr, ok (prog_id, info)) = (
    drop_manager mgr w,
    prints_either json_output (loaded_document vm_id prog_id info)
        (loaded_lines vm_id prog_id info),
  )
  reported json_output vm_id (w, mgr, err e) = (
    drop_manager mgr w,
    failed_after json_output
        (out "Acquiring MicroVM..."
          ∷ out ("VM acquired: " <> vm_id)
          ∷ out "Sending program to guest agent..."
          ∷ [])
        "Failed to load program in VM",
  )

  abbrev pub acquired :
      (json_output : Bool) (bytes : List ℕ) (name : String)
      → World × Manager m × Result VmError String
      → World × Run
  unfolding reported Pool.load_program drop_manager
  acquired json_output bytes name (w, mgr, ok vm_id) =
      reported json_output vm_id (Pool.load_program m mgr vm_id bytes name w)
  acquired json_output bytes name (w, mgr, err e) = (
    drop_manager mgr w,
    failed_after json_output (out "Acquiring MicroVM..." ∷ []) "Failed to acquire MicroVM",
  )

  abbrev name_or : Option String → Option String → String
  name_or (some name) stem = name
  name_or none (some stem) = stem
  name_or none none = "program"

  -- What is missing for an isolated load, as the message of the error
  unfoldable pub not_ready : Files World → (path : String) → Option String
  not_ready files path =
      let data_dir = or_here files.data_local_dir <> "/ebpf-assist" in
      if not (files.is_file (data_dir <> "/firecracker"))
        || (not (files.is_file (data_dir <> "/vmlinux"))
            || not (files.is_file (data_dir <> "/rootfs.ext4")))
      then some
          "MicroVM environment not set up.\n\nRun: ./scripts/vm/setup-vm.sh\n\nOr use 'ebpf-assist vm init' to check status."
      else if not (files.exists "/dev/kvm")
      then some (
          "KVM not available. MicroVM isolation requires KVM.\n\nOptions:\n1. Enable KVM: modprobe kvm && modprobe kvm_intel\n2. Use non-isolated mode: ebpf-assist load "
          <> (path <> " (without --isolate)"))
      else none

  abbrev pub with_bytes :
      (json_output : Bool) (path name : String) → Result String (List ℕ) → World → World × Run
  unfolding acquired Pool.acquire manager
  with_bytes json_output path name (ok bytes) w =
      acquired json_output bytes name (Pool.acquire m manager w)
  with_bytes json_output path name (err e) w = (w, bail ("Failed to read program file: " <> path))

  abbrev pub if_ready :
      Files World
      → (path : String) (program_name : Option String) (json_output : Bool) → Option String
      → World
      → World × Run
  unfolding with_bytes
  if_ready files path program_name json_output (some e) w = (w, bail e)
  if_ready files path program_name json_output none w =
      with_bytes json_output path (name_or program_name (files.file_stem path)) (files.read path w)
        w

  unfoldable pub load_isolated :
      Files World
      → (path : String) (program_name : Option String) (json_output : Bool) → World
      → World × Run
  unfolding if_ready not_ready
  load_isolated files path program_name json_output w =
      if_ready files path program_name json_output (not_ready files path) w
