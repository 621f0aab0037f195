-- ===== src/Cli/MicroVms/Tests.antt =====
-- The commands on microVMs, on a machine whose guests load every program. The world is the list of
-- the processes that were killed.
use ebpf_assist.Prelude.{◌≡◌, ◌↔◌, true, false, String, List, [], ◌∷◌, none, some, ok, refl}
use ebpf_assist.Json.{Json, get, bool}
use ebpf_assist.Common.{trace_point}
use ebpf_assist.Vm.Protocol.{GuestCommand, GuestResponse}
use ebpf_assist.Vm.Machine.{Machine}
use ebpf_assist.Vm.MicroVm
use ebpf_assist.Cli.Output.{prints, doc}
use ebpf_assist.Cli.MicroVms.Environment.{init}
use ebpf_assist.Cli.MicroVms.Ready.{init-not_ready}
use ebpf_assist.Cli.MicroVms.{Files, load_isolated, not_ready}
use ebpf_assist.Cli.MicroVms.Killed.{Killed, load_isolated-Killed}

abbrev answer_of : GuestCommand → GuestResponse
answer_of GuestCommand.ping = GuestResponse.pong
answer_of (GuestCommand.load bytes name) = GuestResponse.loaded 1 (record {
  id = 1;
  name = name;
  program_type = trace_point;
  path = "";
  attached = false;
  attach_point = none;
})
answer_of _ = GuestResponse.shutting_down

abbrev pub machine : Machine
machine = record {
  World = List String;
  VmConfig = Unit {0};
  new_uuid = λ w. (w, "vm-0");
  Instance = String;
  start = λ config id w. (w, ok id);
  boot = λ i w. (w, ok tt);
  vsock_path = λ i. i;
  stop = λ i w. w;
  drop_instance = λ i w. i ∷ w;
  check_crash = λ i w. (w, none);
  Client = String;
  connect = λ path w. (w, ok path);
  send_command = λ client command w. (w, ok (answer_of command));
  sleep = λ ms w. w;
  debug_response = λ r. "response";
}

abbrev files : Files (List String)
files = record {
  data_local_dir = some "/data";
  is_file = λ path. true;
  exists = λ path. true;
  can_open = λ path. true;
  read = λ path w. ok (127 ∷ []);
  file_stem = λ path. some "probe";
}

load_isolated-Killed_example :
    Killed machine
      (λ n. "1")
      tt
      (MicroVm.create machine tt [])
      (load_isolated machine (λ n. "1") tt files "probe.o" none true [])
unfolding load_isolated ebpf_assist.Table.get ebpf_assist.Table.insert
load_isolated-Killed_example =
    load_isolated-Killed machine (λ n. "1") tt files "probe.o" none true [] refl

init-not_ready_example :
    (d : Json) × (init files true ≡ prints (doc d ∷ []))
    × ((get d "ready" ≡ some (bool true)) ↔ (
        (not_ready machine (λ n. "1") tt files "probe.o" ≡ none)
        × (files.can_open "/dev/kvm" ≡ true)))
init-not_ready_example = init-not_ready machine (λ n. "1") tt files "probe.o"
