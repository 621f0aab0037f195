-- ===== src/Mcp/Server.antt =====
-- crates/ebpf-assist-mcp/src/main.rs: one request of the MCP client, and the loop over standard input.
-- What arrives is the list of lines before the end of the stream, and what is written is a list of
-- lines. The codec is serde's. A read or a write that fails ends the loop at once and is left out.
pub mod Laws
use ebpf_assist.Prelude.{
  String, ◌<>◌, List, [], ◌∷◌, Option, none, some, Result, ok, err, if◌then◌else◌, str_eq,
}
use ebpf_assist.Json.{Json, obj, string, null}
use ebpf_assist.Daemon.Io.{Io, pure}
use ebpf_assist.Mcp.{Outside}
use ebpf_assist.Mcp.Protocol.{
  JsonRpcRequest, JsonRpcResponse, rpc_success, rpc_error, McpMethod, initialize, tools_list,
  tools_call, ping, from_str, parse_error, method_not_found, tool_failure,
}
use ebpf_assist.Mcp.Process.{World}
use ebpf_assist.Mcp.Schemas.{handle_tools_list}
use ebpf_assist.Mcp.Tools.Call.{handle_tools_call}

-- `handle_initialize`; the version is cargo's.
unfoldable pub handle_initialize : (version : String) (params : Json) → Json
handle_initialize version params = obj (
    ("protocolVersion", string "2024-11-05")
    ∷ ("capabilities", obj (("tools", obj []) ∷ []))
    ∷ ("serverInfo", obj (("name", string "ebpf-assist") ∷ ("version", string version) ∷ []))
    ∷ [])

pub record Codec : Type 0 where
  pub trim : String → String
  pub parse : String → Result String JsonRpcRequest
  pub print : JsonRpcResponse → Result String String

module _ (o : Outside) where
  abbrev pub run_method : McpMethod → (params : Json) → Io (World o) Json
  unfolding handle_tools_call handle_tools_list handle_initialize
  run_method initialize params = pure (handle_initialize o.version params)
  run_method tools_list params = pure handle_tools_list
  run_method tools_call params = handle_tools_call o params
  run_method ping params = pure (obj [])

  abbrev pub respond_with : (id : Json) → World o × Result String Json → World o × JsonRpcResponse
  unfolding rpc_success rpc_error
  respond_with id (w, ok value) = (w, rpc_success id value)
  respond_with id (w, err e) = (w, rpc_error id tool_failure e)

  abbrev pub dispatch : JsonRpcRequest → Option McpMethod → World o → World o × JsonRpcResponse
  unfolding run_method respond_with rpc_error
  dispatch request (some method) w = respond_with request.id (run_method method request.params w)
  dispatch request none w =
      (w, rpc_error request.id method_not_found ("Method not found: " <> request.method))

  unfoldable pub handle_request : JsonRpcRequest → World o → World o × JsonRpcResponse
  unfolding from_str dispatch
  handle_request request = dispatch request (from_str request.method)

  module _ (c : Codec) where
    -- What is left when the loop ends: how it ended, and the lines written.
    pub record Session : Type 0 where
      pub world : World o
      pub written : List String
      pub ended : Result String (Unit {0})

    abbrev pub answer : Result String JsonRpcRequest → World o → World o × JsonRpcResponse
    unfolding handle_request rpc_error
    answer (ok request) w = handle_request request w
    answer (err e) w = (w, rpc_error null parse_error ("Parse error: " <> e))

    abbrev pub write : Result String String → World o → Session → Session
    write (ok json) w rest = record rest { written = (json <> "\n") ∷ rest.written }
    write (err e) w rest = record { world = w; written = []; ended = err e }

    abbrev pub turn : World o × JsonRpcResponse → (World o → Session) → Session
    turn (w, response) rest = write (c.print response) w (rest w)

    -- The loop of `main`
    unfoldable pub serve : World o → List String → Session
    unfolding answer
    serve w [] = record { world = w; written = []; ended = ok tt }
    serve w (line ∷ lines) =
        if str_eq (c.trim line) ""
        then serve w lines
        else turn (answer (c.parse (c.trim line)) w) λ w'. serve w' lines
