-- ===== src/Vm/Tests.antt =====
-- Runs of the pool, on machines whose guests answer every command.
use ebpf_assist.Prelude.{
  ℕ, zero, suc, ◌+◌, [], ◌∷◌, false, String, none, some, ok, refl, arith, ◌≡◌, string_key,
}
use ebpf_assist.Table
use ebpf_assist.Vm.Protocol.{GuestCommand, GuestResponse}
use ebpf_assist.Vm.Machine.{Machine}
use ebpf_assist.Vm.MicroVm.{MicroVm}
use ebpf_assist.Vm.MicroVm
use ebpf_assist.Vm.Pool.{PoolConfig, Manager, new, acquire, release, warm_up}
use ebpf_assist.Vm.Pool.Bounds.{
  IsBounded, Used, created, acquired, Warmed, warm_up-Warmed, used-IsBounded,
}
use ebpf_assist.Vm.Pool.Bounds.{warmed}
use ebpf_assist.Vm.Pool.Clean.{Shared, made, pushed}
use ebpf_assist.Common.{ProgramInfo, trace_point}
use ebpf_assist.Vm.Pool.Acquire.{Handed, acquire-Handed, acquire-release}

-- The world is the number of the VMs so far.
abbrev name_of : ℕ → String
name_of zero = "vm-0"
name_of (suc zero) = "vm-1"
name_of (suc (suc n)) = "vm-2"

abbrev answer_of : GuestCommand → GuestResponse
answer_of GuestCommand.ping = GuestResponse.pong
answer_of GuestCommand.reset = GuestResponse.reset_complete
answer_of _ = GuestResponse.shutting_down

abbrev probe : ProgramInfo
probe = record {
  id = 1;
  name = "probe";
  program_type = trace_point;
  path = "";
  attached = false;
  attach_point = none;
}

abbrev machine : Machine
machine = record {
  World = ℕ;
  VmConfig = Unit {0};
  new_uuid = λ w. (w + 1, name_of w);
  Instance = String;
  start = λ config id w. (w, ok id);
  boot = λ i w. (w, ok tt);
  vsock_path = λ i. i;
  stop = λ i w. w;
  drop_instance = λ i w. w;
  check_crash = λ i w. (w, none);
  Client = String;
  connect = λ path w. (w, ok path);
  send_command = λ client command w. (w, ok (answer_of command));
  sleep = λ ms w. w;
  debug_response = λ r. "response";
}

abbrev config : PoolConfig machine
config = record { min_warm = 0; max_warm = 1; max_total = 2; idle_timeout = 300; vm_config = tt }

abbrev empty : Manager machine
unfolding new
empty = new machine config

-- One VM has been warmed up, and is in use.
abbrev warm : Manager machine
unfolding empty warm_up
warm = (warm_up machine empty 1 0).1

abbrev busy : Manager machine
unfolding warm acquire
busy = (acquire machine warm 0).1

abbrev busy_used : Used machine busy
unfolding busy warm empty
busy_used = acquired warm 0 (warmed empty 1 0 (created config))

used-IsBounded_example : IsBounded machine busy
unfolding busy_used empty new
used-IsBounded_example = used-IsBounded machine busy busy_used (omega arith, tt)

-- The VM in use, once with a program.
abbrev first : MicroVm machine
first = record {
  id = "vm-0";
  state = MicroVm.VmState.running;
  firecracker = "vm-0";
  client = some "vm-0";
  programs = [];
}

abbrev loaded : MicroVm machine
loaded = record first { programs = (1, probe) ∷ [] }

-- The VM was used for a program, and its release has reset it.
abbrev waiting : Manager machine
unfolding new
waiting = record (new machine config) { warm_pool = first ∷ [] }

abbrev waiting_shared : Shared machine waiting
unfolding waiting MicroVm.reset MicroVm.judge_reset new
waiting_shared = pushed (new machine config) loaded 1 refl (made config)

acquire-Handed_example : Handed machine "vm-0" (acquire machine waiting 1).1
unfolding waiting new acquire
acquire-Handed_example = acquire-Handed machine waiting 1 "vm-0" waiting_shared refl

-- A manager whose VM holds a program.
abbrev holding : Manager machine
unfolding new
holding = record (new machine config) { active_vms = ("vm-0", loaded) ∷ [] }

acquire-release_example :
    ((acquire machine (release machine holding "vm-0" 1).1 1).2 ≡ ok "vm-0")
    × (Table.get (acquire machine (release machine holding "vm-0" 1).1 1).1.active_vms "vm-0"
        ≡ some first)
    × (first.programs ≡ [])
    × ((acquire machine (release machine holding "vm-0" 1).1 1).1.warm_pool ≡ [])
unfolding new Table.get MicroVm.reset MicroVm.judge_reset
acquire-release_example = acquire-release machine holding "vm-0" loaded 1 1 refl (omega arith) refl

warm_up-Warmed_example :
    Warmed machine 3 empty (warm_up machine empty 3 0).1 (warm_up machine empty 3 0).2
unfolding empty new
warm_up-Warmed_example = warm_up-Warmed machine empty 3 0
