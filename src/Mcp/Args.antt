-- ===== src/Mcp/Args.antt =====
-- crates/ebpf-assist-mcp/src/tools.rs and protocol.rs: the arguments of the tools, and serde's derived
-- decoders of them, each with the message of its error.
use ebpf_assist.Prelude.{ℕ, Bool, String, List, Option, Result}
use ebpf_assist.Json.{Json}
use ebpf_assist.Common.{Text}

pub record NewArgs : Type 0 where
  pub template : String
  pub name : String
  pub target : Option String
  pub output_dir : Option String

pub record CompileArgs : Type 0 where
  pub source : String
  pub output : Option String
  pub opt_level : Option ℕ

pub record LoadArgs : Type 0 where
  pub path : String
  pub program_name : Option String
  pub isolate : Bool

pub record IdArgs : Type 0 where
  pub id : ℕ

pub record AttachArgs : Type 0 where
  pub id : ℕ
  pub target : String

pub record TriggerArgs : Type 0 where
  pub category : String
  pub operation : String
  pub args : List String

pub record TraceArgs : Type 0 where
  pub lines : ℕ
  pub timeout : ℕ

-- The derived `Default`, which is not what the decoder fills missing fields with.
abbrev pub default_trace : TraceArgs
default_trace = record { lines = 0; timeout = 0 }

pub record MapReadArgs : Type 0 where
  pub id : ℕ
  pub map_name : String
  pub key : Option Text

pub record MapWriteArgs : Type 0 where
  pub id : ℕ
  pub map_name : String
  pub key : Text
  pub value : Text

pub record MapDeleteArgs : Type 0 where
  pub id : ℕ
  pub map_name : String
  pub key : Text

pub record VmStopArgs : Type 0 where
  pub vm_id : String

pub record ToolCallParams : Type 0 where
  pub name : String
  pub arguments : Json

-- `serde_json::from_value` at each of these types
pub record Decoders : Type 0 where
  pub tool_call : Json → Result String ToolCallParams
  pub new : Json → Result String NewArgs
  pub compile : Json → Result String CompileArgs
  pub load : Json → Result String LoadArgs
  pub id : Json → Result String IdArgs
  pub attach : Json → Result String AttachArgs
  pub trigger : Json → Result String TriggerArgs
  pub trace : Json → Result String TraceArgs
  pub map_read : Json → Result String MapReadArgs
  pub map_write : Json → Result String MapWriteArgs
  pub map_delete : Json → Result String MapDeleteArgs
  pub vm_stop : Json → Result String VmStopArgs
