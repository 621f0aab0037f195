-- ===== src/Vm/Machine.antt =====
-- What a microVM stands on, as an interface: the Firecracker process (firecracker.rs), the
-- connection to the guest's agent (vsock_client.rs), uuid and tokio's timer. `World` is the state
-- outside, with the processes and the guests in it.
use ebpf_assist.Prelude.{ℕ, String, Option, Result}
use ebpf_assist.Vm.Protocol.{GuestCommand, GuestResponse, VmError}
use ebpf_assist.Vm.Crash.{CrashInfo}

pub record Machine : Type 1 where
  pub World : Type 0
  pub VmConfig : Type 0
  -- `Uuid::new_v4().to_string()`
  pub new_uuid : World → World × String
  -- `FirecrackerInstance`: its drop kills the process, its shutdown does not fail
  pub Instance : Type 0
  pub start : VmConfig → String → World → World × Result VmError Instance
  pub boot : Instance → World → World × Result VmError (Unit {0})
  pub vsock_path : Instance → String
  pub stop : Instance → World → World
  pub drop_instance : Instance → World → World
  pub check_crash : Instance → World → World × Option CrashInfo
  -- `GuestClient`
  pub Client : Type 0
  pub connect : String → World → World × Result VmError Client
  pub send_command : Client → GuestCommand → World → World × Result VmError GuestResponse
  -- `tokio::time::sleep`, in milliseconds
  pub sleep : ℕ → World → World
  -- the `Debug` of a response
  pub debug_response : GuestResponse → String
