-- ===== src/Mcp/Protocol.antt =====
-- crates/ebpf-assist-mcp/src/protocol.rs: the JSON-RPC messages of the MCP server.
use ebpf_assist.Prelude.{
  Bool, true, String, List, [], ◌∷◌, Option, none, some, if◌then◌else◌, str_eq,
}
use ebpf_assist.Vm.Protocol.{ℤ, negsuc}
use ebpf_assist.Json.{Json, obj, arr, string, bool}

pub record JsonRpcRequest : Type 0 where
  pub jsonrpc : String
  pub id : Json
  pub method : String
  pub params : Json

pub record JsonRpcError : Type 0 where
  pub code : ℤ
  pub message : String
  pub data_value : Option Json

pub record JsonRpcResponse : Type 0 where
  pub jsonrpc : String
  pub id : Json
  pub result : Option Json
  pub error : Option JsonRpcError

unfoldable pub rpc_success : (id result : Json) → JsonRpcResponse
rpc_success id result = record { jsonrpc = "2.0"; id = id; result = some result; error = none }

unfoldable pub rpc_error : (id : Json) → ℤ → (message : String) → JsonRpcResponse
rpc_error id code message = record {
  jsonrpc = "2.0";
  id = id;
  result = none;
  error = some (record { code = code; message = message; data_value = none });
}

-- -32700, -32601 and -32000
abbrev pub parse_error : ℤ
parse_error = negsuc 32699

abbrev pub method_not_found : ℤ
method_not_found = negsuc 32600

abbrev pub tool_failure : ℤ
tool_failure = negsuc 31999

pub data McpMethod : Type 0 where
  initialize tools_list tools_call ping : McpMethod

unfoldable pub from_str : String → Option McpMethod
from_str s =
    if str_eq s "initialize"
    then some initialize
    else if str_eq s "tools/list"
    then some tools_list
    else if str_eq s "tools/call"
    then some tools_call
    else if str_eq s "ping"
    then some ping
    else none

pub record ToolDefinition : Type 0 where
  pub name : String
  pub description : String
  pub input_schema : Json

pub record ToolContent : Type 0 where
  pub content_type : String
  pub text : String

pub record ToolCallResult : Type 0 where
  pub content : List ToolContent
  pub is_error : Option Bool

unfoldable pub text : String → ToolCallResult
text s = record { content = record { content_type = "text"; text = s } ∷ []; is_error = none }

unfoldable pub failure : String → ToolCallResult
failure s = record {
  content = record { content_type = "text"; text = s } ∷ [];
  is_error = some true;
}

-- The derived `Serialize` of the three.
abbrev pub definition_value : ToolDefinition → Json
definition_value t = obj (
    ("name", string t.name)
    ∷ ("description", string t.description)
    ∷ ("inputSchema", t.input_schema)
    ∷ [])

abbrev content_value : List ToolContent → List Json
content_value [] = []
content_value (c ∷ cs) =
    obj (("type", string c.content_type) ∷ ("text", string c.text) ∷ []) ∷ content_value cs

abbrev error_field : Option Bool → List (String × Json)
error_field none = []
error_field (some b) = ("isError", bool b) ∷ []

unfoldable pub result_value : ToolCallResult → Json
result_value r = obj (("content", arr (content_value r.content)) ∷ error_field r.is_error)
