-- ===== src/Common.antt =====
-- crates/ebpf-assist-common/src/lib.rs: the types that the daemon and its clients share, and the
-- default policy for each type of program. Names, targets and messages are native strings; the
-- keys and values of map entries, which the daemon parses, are lists of code points. Paths are
-- strings.
pub mod Answers
pub mod Policy
use ebpf_assist.Prelude.{ℕ, String, Bool, Option, List}

-- `ProgramId(u32)`
abbrev pub ProgramId : Type 0
ProgramId = ℕ

-- A text by its code points.
abbrev pub Text : Type 0
Text = List ℕ

pub data ProgramType : Type 0 where
  k_probe k_ret_probe u_probe u_ret_probe trace_point raw_trace_point : ProgramType
  xdp sched_classifier cgroup_skb socket_filter perf_event lsm struct_ops unknown : ProgramType

pub data PolicyAction : Type 0 where
  allow warn deny : PolicyAction

unfoldable pub default_policy : ProgramType → PolicyAction
default_policy k_probe = allow
default_policy k_ret_probe = allow
default_policy u_probe = allow
default_policy u_ret_probe = allow
default_policy trace_point = allow
default_policy raw_trace_point = allow
default_policy perf_event = allow
default_policy xdp = warn
default_policy sched_classifier = warn
default_policy socket_filter = warn
default_policy lsm = deny
default_policy struct_ops = deny
default_policy cgroup_skb = deny
default_policy unknown = deny

unfoldable pub policy_reason : ProgramType → String
policy_reason k_probe = "Kernel function tracing (read-only observability)"
policy_reason k_ret_probe = "Kernel function tracing (read-only observability)"
policy_reason u_probe = "Userspace function tracing (read-only observability)"
policy_reason u_ret_probe = "Userspace function tracing (read-only observability)"
policy_reason trace_point = "Static kernel tracepoints (read-only observability)"
policy_reason raw_trace_point = "Static kernel tracepoints (read-only observability)"
policy_reason perf_event = "Performance monitoring (read-only observability)"
policy_reason xdp = "XDP can drop or modify network packets"
policy_reason sched_classifier = "TC classifier can modify network traffic"
policy_reason socket_filter = "Socket filter can inspect/filter network data"
policy_reason cgroup_skb = "Cgroup programs can control container networking"
policy_reason lsm = "LSM programs can bypass security policies"
policy_reason struct_ops = "struct_ops can replace kernel code paths"
policy_reason unknown = "Unknown program type - denied for safety"

-- The derived `Debug` of `ProgramType`, which policy messages print.
unfoldable pub debug_type : ProgramType → String
debug_type k_probe = "KProbe"
debug_type k_ret_probe = "KRetProbe"
debug_type u_probe = "UProbe"
debug_type u_ret_probe = "URetProbe"
debug_type trace_point = "TracePoint"
debug_type raw_trace_point = "RawTracePoint"
debug_type xdp = "Xdp"
debug_type sched_classifier = "SchedClassifier"
debug_type cgroup_skb = "CgroupSkb"
debug_type socket_filter = "SocketFilter"
debug_type perf_event = "PerfEvent"
debug_type lsm = "Lsm"
debug_type struct_ops = "StructOps"
debug_type unknown = "Unknown"

pub record ProgramInfo : Type 0 where
  pub id : ProgramId
  pub name : String
  pub program_type : ProgramType
  pub path : String
  pub attached : Bool
  pub attach_point : Option String

pub data MapType : Type 0 where
  hash array per_cpu_hash per_cpu_array perf_event_array ring_buf : MapType
  hash_map lru_hash lpm_trie stack queue unknown_map : MapType

pub record MapInfo : Type 0 where
  pub name : String
  pub map_type : MapType
  pub key_size : ℕ
  pub value_size : ℕ
  pub max_entries : ℕ

pub record MapEntry : Type 0 where
  pub key : Text
  pub value : Text
  pub value_u64 : Option ℕ
  pub value_str : Option String

pub data Request : Type 0 where
  load : (path : String) (program_name : Option String) → Request
  unload : ProgramId → Request
  attach : ProgramId → (target : String) → Request
  detach : ProgramId → Request
  list_all status ping unlock lock auth_status : Request
  map_list : ProgramId → Request
  map_read : ProgramId → (map_name : String) → (key : Option Text) → Request
  map_write : ProgramId → (map_name : String) → (key value : Text) → Request
  map_delete : ProgramId → (map_name : String) → (key : Text) → Request

pub data ErrorCode : Type 0 where
  not_found permission_denied verifier_error program_not_found already_attached : ErrorCode
  not_attached invalid_request internal capability_error auth_required : ErrorCode
  auth_denied policy_violation map_not_found invalid_key invalid_value : ErrorCode

-- The derived `Debug` of `ErrorCode`, which clients print.
unfoldable pub debug_code : ErrorCode → String
debug_code ErrorCode.not_found = "NotFound"
debug_code ErrorCode.permission_denied = "PermissionDenied"
debug_code ErrorCode.verifier_error = "VerifierError"
debug_code ErrorCode.program_not_found = "ProgramNotFound"
debug_code ErrorCode.already_attached = "AlreadyAttached"
debug_code ErrorCode.not_attached = "NotAttached"
debug_code ErrorCode.invalid_request = "InvalidRequest"
debug_code ErrorCode.internal = "Internal"
debug_code ErrorCode.capability_error = "CapabilityError"
debug_code ErrorCode.auth_required = "AuthRequired"
debug_code ErrorCode.auth_denied = "AuthDenied"
debug_code ErrorCode.policy_violation = "PolicyViolation"
debug_code ErrorCode.map_not_found = "MapNotFound"
debug_code ErrorCode.invalid_key = "InvalidKey"
debug_code ErrorCode.invalid_value = "InvalidValue"

pub data Response : Type 0 where
  loaded : ProgramId → (name : String) → ProgramType → (warning : Option String) → Response
  unloaded : ProgramId → Response
  attached_to : ProgramId → (target : String) → Response
  detached : ProgramId → Response
  programs : List ProgramInfo → Response
  status_is :
      (version : String) (uptime_secs programs_loaded : ℕ) (capabilities : List String) → Response
  pong unlocked locked : Response
  auth_status_result : (authorized : Bool) (expires_in_secs : ℕ) → Response
  error : (message : String) → ErrorCode → Response
  maps : List MapInfo → Response
  map_entries : (map_name : String) → List MapEntry → Response
  map_written : (map_name : String) → (key : Text) → Response
  map_deleted : (map_name : String) → (key : Text) → Response
