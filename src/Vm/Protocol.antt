-- ===== src/Vm/Protocol.antt =====
-- crates/ebpf-assist-vm/src/protocol.rs and error.rs: what the host and the agent in a guest say to
-- each other, and the errors of the host's side. An error that wraps one of a library holds the
-- text of that error. Bytes are numbers, and the exit code -1 and its like are written `negsuc`.
use ebpf_assist.Prelude.{ℕ, Bool, true, false, String, Option, List}
use ebpf_assist.Common.{ProgramId, ProgramInfo, MapInfo, MapEntry}

-- A signed number (i32): `pos n` is n, and `negsuc n` is -(n + 1).
pub data ℤ : Type 0 where
  pos negsuc : ℕ → ℤ

pub data GuestCommand : Type 0 where
  load : (program_bytes : List ℕ) (name : String) → GuestCommand
  unload : (id : ProgramId) → GuestCommand
  attach : (id : ProgramId) (target : String) → GuestCommand
  detach : (id : ProgramId) → GuestCommand
  list_all status : GuestCommand
  trigger : (category operation : String) (args : List String) → GuestCommand
  read_trace : (lines timeout_ms : ℕ) → GuestCommand
  map_list : (program_id : ProgramId) → GuestCommand
  map_read : (program_id : ProgramId) (map_name : String) (key : Option (List ℕ)) → GuestCommand
  map_write : (program_id : ProgramId) (map_name : String) (key value : List ℕ) → GuestCommand
  map_delete : (program_id : ProgramId) (map_name : String) (key : List ℕ) → GuestCommand
  unload_all reset shutdown ping : GuestCommand

pub data GuestResponse : Type 0 where
  loaded : (id : ProgramId) (info : ProgramInfo) → GuestResponse
  unloaded : GuestResponse
  unloaded_all : (count : ℕ) → GuestResponse
  attached detached : GuestResponse
  programs : List ProgramInfo → GuestResponse
  status_is : (uptime_secs programs_loaded : ℕ) → GuestResponse
  triggered : (output : String) → GuestResponse
  trace_output : (lines : List String) → GuestResponse
  maps : List MapInfo → GuestResponse
  map_entries : (entries : List MapEntry) → GuestResponse
  map_written map_deleted reset_complete pong shutting_down : GuestResponse
  error : (code : ℤ) (message : String) → GuestResponse

-- `GuestResponse::error`
unfoldable pub error_response : String → GuestResponse
error_response message = GuestResponse.error (negsuc 0) message

unfoldable pub error_with_code : ℤ → String → GuestResponse
error_with_code code message = GuestResponse.error code message

unfoldable pub is_error : GuestResponse → Bool
is_error (GuestResponse.error code message) = true
is_error _ = false

abbrev pub max_message_size : ℕ
max_message_size = 16777216

pub data VmError : Type 0 where
  kvm_not_available : String → VmError
  firecracker_not_found : VmError
  kernel_not_found rootfs_not_found boot_failed vm_not_found vm_not_running : String → VmError
  agent_connection_failed : String → VmError
  agent_timeout : VmError
  vm_crashed firecracker_api vsock io json : String → VmError
  pool_exhausted : ℕ → VmError
  config : String → VmError
