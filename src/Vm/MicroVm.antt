-- ===== src/Vm/MicroVm.antt =====
-- crates/ebpf-assist-vm/src/manager.rs, `MicroVm`: one VM, from its boot to its shutdown.
use ebpf_assist.Prelude.{
  ℕ, zero, suc, Bool, true, false, List, [], String, ◌<>◌, Option, none, some, Result, ok, err,
  ℕ_eq,
}
use ebpf_assist.Table.{Table}
use ebpf_assist.Table
use ebpf_assist.Common.{ProgramId, ProgramInfo}
use ebpf_assist.Vm.Protocol.{
  GuestCommand, GuestResponse, VmError, boot_failed, agent_connection_failed,
}
use ebpf_assist.Vm.Crash.{CrashInfo}
use ebpf_assist.Vm.Machine.{Machine}

pub data VmState : Type 0 where
  starting running stopping stopped : VmState
  crashed : Option CrashInfo → VmState

module _ (m : Machine) where
  open m use {World, Client, Instance, VmConfig}

  pub record MicroVm : Type 0 where
    pub id : String
    pub state : VmState
    pub firecracker : Instance
    pub client : Option Client
    pub programs : Table ProgramId ProgramInfo

  -- A method of the VM, which may have changed it also when it fails.
  abbrev pub Done : Type 0 → Type 0
  Done A = World × MicroVm × Result VmError A

  -- `client()?.send_command(command).await`
  unfoldable pub exchange : MicroVm → GuestCommand → World → World × Result VmError GuestResponse
  exchange vm command w = elim vm.client [
    | none ↦ (w, err (agent_connection_failed "Not connected"))
    | some client ↦ m.send_command client command w
  ]

  abbrev pub unexpected : GuestResponse → VmError
  unexpected other = boot_failed ("Unexpected response: " <> m.debug_response other)

  -- `?`, and the match of the response
  abbrev pub settle :
      {A : Type 0}
      → MicroVm
      → (GuestResponse → MicroVm × Result VmError A)
      → World × Result VmError GuestResponse
      → Done A
  settle vm judge (w, ok response) = (w, (judge response).0, (judge response).1)
  settle vm judge (w, err e) = (w, vm, err e)

  -- The result of a ping, for the loop of `connect`: whether the agent has answered it.
  abbrev pub is_pong : Result VmError GuestResponse → Bool
  is_pong (ok GuestResponse.pong) = true
  is_pong _ = false

  abbrev pub pinged : Client → World × Result VmError GuestResponse → World × Option Client
  pinged client (w, r) = elim (is_pong r) [ true ↦ (w, some client) | false ↦ (w, none) ]

  abbrev pub then_ping : World × Result VmError Client → World × Option Client
  then_ping (w, ok client) = pinged client (m.send_command client GuestCommand.ping w)
  then_ping (w, err e) = (w, none)

  abbrev pub connected_or :
      World × Option Client → MicroVm → (World → Done (Unit {0})) → Done (Unit {0})
  connected_or (w, some client) vm retry = (w, record vm { client = some client }, ok tt)
  connected_or (w, none) vm retry = retry (m.sleep 500 w)

  -- The loop of `connect`, with the attempts that are left.
  unfoldable pub connect_loop : ℕ → MicroVm → World → Done (Unit {0})
  connect_loop zero vm w =
      (w, vm, err (agent_connection_failed "Failed to connect after 10 attempts"))
  connect_loop (suc attempts) vm w =
      connected_or (then_ping (m.connect (m.vsock_path vm.firecracker) w)) vm
        (connect_loop attempts vm)

  unfoldable pub connect : MicroVm → World → Done (Unit {0})
  unfolding connect_loop
  connect vm w = connect_loop 10 vm w

  -- The VM as `create` first makes it.
  abbrev pub fresh : String → Instance → MicroVm
  fresh id firecracker = record {
    id = id;
    state = VmState.starting;
    firecracker = firecracker;
    client = none;
    programs = [];
  }

  -- The ends of `create`: on an error the VM is dropped.
  abbrev pub now_running : Done (Unit {0}) → World × Result VmError MicroVm
  now_running (w, vm, ok _) = (w, ok (record vm { state = VmState.running }))
  now_running (w, vm, err e) = (m.drop_instance vm.firecracker w, err e)

  abbrev pub booted : MicroVm → World × Result VmError (Unit {0}) → World × Result VmError MicroVm
  unfolding connect
  booted vm (w, ok _) = now_running (connect vm w)
  booted vm (w, err e) = (m.drop_instance vm.firecracker w, err e)

  abbrev pub launched : String → World × Result VmError Instance → World × Result VmError MicroVm
  launched id (w, ok firecracker) = booted (fresh id firecracker) (m.boot firecracker w)
  launched id (w, err e) = (w, err e)

  unfoldable pub create : VmConfig → World → World × Result VmError MicroVm
  unfolding connect
  create config w = let (w', id) = m.new_uuid w in launched id (m.start config id w')

  unfoldable pub judge_load :
      MicroVm → GuestResponse → MicroVm × Result VmError (ProgramId × ProgramInfo)
  judge_load vm (GuestResponse.loaded id info) =
      (record vm { programs = Table.insert vm.programs id info }, ok (id, info))
  judge_load vm (GuestResponse.error code message) = (vm, err (boot_failed message))
  judge_load vm other = (vm, err (unexpected other))

  unfoldable pub load_program :
      MicroVm → (bytes : List ℕ) (name : String) → World → Done (ProgramId × ProgramInfo)
  unfolding exchange judge_load
  load_program vm bytes name w =
      settle vm (judge_load vm) (exchange vm (GuestCommand.load bytes name) w)

  unfoldable pub judge_unload :
      MicroVm → ProgramId → GuestResponse → MicroVm × Result VmError (Unit {0})
  judge_unload vm id GuestResponse.unloaded =
      (record vm { programs = Table.remove vm.programs id }, ok tt)
  judge_unload vm id (GuestResponse.error code message) = (vm, err (boot_failed message))
  judge_unload vm id other = (vm, err (unexpected other))

  unfoldable pub unload_program : MicroVm → ProgramId → World → Done (Unit {0})
  unfolding exchange judge_unload
  unload_program vm id w = settle vm (judge_unload vm id) (exchange vm (GuestCommand.unload id) w)

  unfoldable pub judge_attach : MicroVm → GuestResponse → MicroVm × Result VmError (Unit {0})
  judge_attach vm GuestResponse.attached = (vm, ok tt)
  judge_attach vm (GuestResponse.error code message) = (vm, err (boot_failed message))
  judge_attach vm other = (vm, err (unexpected other))

  unfoldable pub attach_program : MicroVm → ProgramId → (target : String) → World → Done (Unit {0})
  unfolding exchange judge_attach
  attach_program vm id target w =
      settle vm (judge_attach vm) (exchange vm (GuestCommand.attach id target) w)

  unfoldable pub judge_detach : MicroVm → GuestResponse → MicroVm × Result VmError (Unit {0})
  judge_detach vm GuestResponse.detached = (vm, ok tt)
  judge_detach vm (GuestResponse.error code message) = (vm, err (boot_failed message))
  judge_detach vm other = (vm, err (unexpected other))

  unfoldable pub detach_program : MicroVm → ProgramId → World → Done (Unit {0})
  unfolding exchange judge_detach
  detach_program vm id w = settle vm (judge_detach vm) (exchange vm (GuestCommand.detach id) w)

  unfoldable pub judge_list : MicroVm → GuestResponse → MicroVm × Result VmError (List ProgramInfo)
  judge_list vm (GuestResponse.programs programs) = (vm, ok programs)
  judge_list vm (GuestResponse.error code message) = (vm, err (boot_failed message))
  judge_list vm other = (vm, err (unexpected other))

  unfoldable pub list_programs : MicroVm → World → Done (List ProgramInfo)
  unfolding exchange judge_list
  list_programs vm w = settle vm (judge_list vm) (exchange vm GuestCommand.list_all w)

  unfoldable pub judge_trace : MicroVm → GuestResponse → MicroVm × Result VmError (List String)
  judge_trace vm (GuestResponse.trace_output lines) = (vm, ok lines)
  judge_trace vm (GuestResponse.error code message) = (vm, err (boot_failed message))
  judge_trace vm other = (vm, err (unexpected other))

  unfoldable pub read_trace : MicroVm → (lines timeout_ms : ℕ) → World → Done (List String)
  unfolding exchange judge_trace
  read_trace vm lines timeout_ms w =
      settle vm (judge_trace vm) (exchange vm (GuestCommand.read_trace lines timeout_ms) w)

  unfoldable pub judge_trigger : MicroVm → GuestResponse → MicroVm × Result VmError String
  judge_trigger vm (GuestResponse.triggered output) = (vm, ok output)
  judge_trigger vm (GuestResponse.error code message) = (vm, err (boot_failed message))
  judge_trigger vm other = (vm, err (unexpected other))

  unfoldable pub trigger :
      MicroVm → (category operation : String) → List String → World → Done String
  unfolding exchange judge_trigger
  trigger vm category operation args w =
      settle vm (judge_trigger vm) (exchange vm (GuestCommand.trigger category operation args) w)

  unfoldable pub judge_reset : MicroVm → GuestResponse → MicroVm × Result VmError (Unit {0})
  judge_reset vm GuestResponse.reset_complete = (record vm { programs = [] }, ok tt)
  judge_reset vm (GuestResponse.error code message) = (vm, err (boot_failed message))
  judge_reset vm other = (vm, err (unexpected other))

  unfoldable pub reset : MicroVm → World → Done (Unit {0})
  unfolding exchange judge_reset
  reset vm w = settle vm (judge_reset vm) (exchange vm GuestCommand.reset w)

  -- The VM is consumed: the agent is told, Firecracker is shut down, and the instance is dropped.
  unfoldable pub shutdown : MicroVm → World → World
  unfolding exchange
  shutdown vm w =
      m.drop_instance vm.firecracker (m.stop vm.firecracker (exchange vm GuestCommand.shutdown w).0)

  abbrev pub note_crash : MicroVm → World × Option CrashInfo → World × MicroVm × Option CrashInfo
  note_crash vm (w, some info) = (w, record vm { state = VmState.crashed (some info) }, some info)
  note_crash vm (w, none) = (w, vm, none)

  unfoldable pub check_health : MicroVm → World → World × MicroVm × Option CrashInfo
  check_health vm w = note_crash vm (m.check_crash vm.firecracker w)

  abbrev responsive : World × MicroVm × Option CrashInfo → World × MicroVm × Bool
  unfolding exchange
  responsive (w, vm, some info) = (w, vm, false)
  responsive (w, vm, none) = elim vm.client [
    | none ↦ (w, vm, false)
    | some client ↦ let (w', r) = m.send_command client GuestCommand.ping w in (w', vm, is_pong r)
  ]

  unfoldable pub is_healthy : MicroVm → World → World × MicroVm × Bool
  unfolding check_health responsive
  is_healthy vm w = responsive (check_health vm w)

  unfoldable pub crash_info : MicroVm → Option CrashInfo
  crash_info vm = elim vm.state [ VmState.crashed info ↦ info | _ ↦ none ]
