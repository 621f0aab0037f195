-- ===== src/Mcp/Tests.antt =====
-- Runs of the MCP server in a small world.
use ebpf_assist.Prelude.{
  ℕ, suc, true, false, String, ◌<>◌, [], ◌∷◌, none, some, Result, ok, err, str_eq, ◌≡◌, refl,
  if◌then◌else◌,
}
use ebpf_assist.Json.{Json, null, number}
use ebpf_assist.Common.{Request, Response, ErrorCode}
use ebpf_assist.Daemon.Handler.{handle_request, new_state}
use ebpf_assist.Daemon.Server.{Codec}
use ebpf_assist.Daemon.Tests.{demo, world_at}
use ebpf_assist.Cli.Main.Service.{ClientCodec}
use ebpf_assist.Mcp.{Outside, Output}
use ebpf_assist.Mcp.Protocol.{JsonRpcRequest, JsonRpcResponse, JsonRpcError, method_not_found}
use ebpf_assist.Mcp.Process.Programs.{new_result}
use ebpf_assist.Cli.Compile.{CompileResult}
use ebpf_assist.Cli.Compile.Run.{compile_document}
use ebpf_assist.Mcp.Protocol.{text, ToolCallResult}
use ebpf_assist.Mcp.Process.Programs.{compile_result}
use ebpf_assist.Mcp.Process.Compiled.{Holds, compile_result-compile_document}
use ebpf_assist.Cli.Trace.{waits, read_lines}
use ebpf_assist.Cli.Trace.Limits.{arrived}
use ebpf_assist.Mcp.Process.Activity.{trace_args}
use ebpf_assist.Mcp.Process.Endless.{trace_args-waits}
use ebpf_assist.Mcp.Process.Status.{results-Marks}
use ebpf_assist.Mcp.Schemas.{tools}
use ebpf_assist.Mcp.Server.{serve}
use ebpf_assist.Mcp.Server
use ebpf_assist.Mcp.Server.Laws.{serve-Replies, handle_request-error, error_for}
use ebpf_assist.Mcp.Tools.Call.{tool_named, or_unknown}
use ebpf_assist.Mcp.Tools.Names.{is_some, is_listed, tool_named-is_listed}
use ebpf_assist.Mcp.Tools.Flags.{DaemonTool}
use ebpf_assist.Mcp.Tools.Service.{beside_daemon, detaches, tool_named-handle_request}

abbrev undecoded : {A : Type 0} → Json → Result String A
undecoded j = err "invalid type"

-- No arguments decode, the daemon is away, and each process fails in silence.
abbrev outside : Outside
outside = record {
  socket = record {
    World = ℕ;
    runtime_dir = none;
    join = λ dir name. dir <> ("/" <> name);
    connect = λ path w. (w, err "refused");
    exchange = λ line w. (w, err "closed");
    print = λ _. ok "request";
    parse = λ _. err "no response";
  };
  exe_dir = none;
  is_file = λ _. false;
  join = λ dir name. dir <> ("/" <> name);
  canonicalize = λ path w. ok path;
  output = λ program args w. (suc w, ok (record { is_success = false; stdout = ""; stderr = "" }));
  decoders = record {
    tool_call = undecoded;
    new = undecoded;
    compile = undecoded;
    load = undecoded;
    id = undecoded;
    attach = undecoded;
    trigger = undecoded;
    trace = undecoded;
    map_read = undecoded;
    map_write = undecoded;
    map_delete = undecoded;
    vm_stop = undecoded;
  };
  parse_value = λ _. none;
  show = λ n. "n";
  show_text = λ t. "text";
  version = "0.1.0";
}

abbrev request_for : String → JsonRpcRequest
request_for method = record { jsonrpc = "2.0"; id = number 7; method = method; params = null }

abbrev rpc_codec : Server.Codec
rpc_codec = record {
  trim = λ line. line;
  parse = λ line. if str_eq line "{" then err "EOF while parsing" else ok (request_for line);
  print = λ _. ok "response";
}

tool_named-is_listed_example :
    is_some (tool_named outside "ebpf_trace" null) ≡ is_listed "ebpf_trace" tools
tool_named-is_listed_example = tool_named-is_listed outside "ebpf_trace" null

handle_request-error_example :
    (Server.handle_request outside (request_for "notifications/initialized") 0).1.error
    ≡ some (record {
      code = method_not_found;
      message = "Method not found: " <> "notifications/initialized";
      data_value = none;
    })
unfolding error_for ebpf_assist.Mcp.Protocol.from_str
handle_request-error_example =
    handle_request-error outside (request_for "notifications/initialized") 0

-- A blank line, a line that is no request, and a call.
serve-Replies_example : (serve outside rpc_codec 0 ("" ∷ "{" ∷ "tools/call" ∷ [])).ended ≡ ok tt
serve-Replies_example =
    (serve-Replies outside rpc_codec (λ _. "response") 0 ("" ∷ "{" ∷ "tools/call" ∷ []) λ _. refl).0

results-Marks_example :
    (new_result outside "probe"
      (record { is_success = false; stdout = "{}"; stderr = "" })).is_error
    ≡ some true
results-Marks_example =
    (results-Marks outside "probe" "vm"
      (record { category = "fs"; operation = "create"; args = [] })
      (record { is_success = false; stdout = "{}"; stderr = "" })).0

abbrev unknown_program : Response
unknown_program = Response.error "Program not found: 3" ErrorCode.program_not_found

abbrev codec : Codec
codec = record {
  trim = λ line. line;
  parse = λ line. if str_eq line "detach" then ok (Request.detach 3) else err "no request";
  print = λ _. ok "unknown";
}

abbrev client_codec : ClientCodec
client_codec = record {
  print = λ _. ok "detach";
  parse = λ line.
      ok
        (handle_request demo "1" (new_state demo 0) (Request.detach 3)
          (world_at 0 (false, true))).2;
}

-- Arguments with the id 3.
abbrev with_id : Outside
with_id = record outside {
  decoders = record (outside.decoders) { id = λ args. ok (record { id = 3 }) };
}

abbrev beside : Outside
beside =
    beside_daemon demo codec client_codec "1" with_id (λ path w. ok path)
      (λ program args w. (w, err "no process"))

tool_named-handle_request_example :
    (result : ToolCallResult) × (or_unknown beside "ebpf_detach"
        (tool_named beside "ebpf_detach" null)
        (world_at 0 (false, true), new_state demo 0)
      ≡ (
        (
          (handle_request demo "1"
              (new_state demo 0)
              (Request.detach 3)
              (world_at 0 (false, true))).0,
          (handle_request demo "1"
              (new_state demo 0)
              (Request.detach 3)
              (world_at 0 (false, true))).1,
        ),
        ok result,
      ))
    × (result.is_error ≡ some true)
unfolding handle_request new_state ebpf_assist.Common.Answers.is_error ebpf_assist.Table.get
tool_named-handle_request_example =
    tool_named-handle_request demo codec client_codec "1" with_id (λ path w. ok path)
      (λ program args w. (w, err "no process")) (new_state demo 0) (world_at 0 (false, true)) null
      "ebpf_detach" (DaemonTool.detach 3) {line = "detach"} {text = "unknown"}
      (detaches (record { id = 3 }) refl) refl refl refl refl refl

-- A compilation with one warning, whose output reads back as the document.
abbrev compiled : CompileResult
compiled = record { output_path = "a.o"; warnings = "a.c:1: warning: unused" ∷ [] }

abbrev after_compile : Outside
after_compile = record outside { parse_value = λ text. some (compile_document compiled) }

compile_result-compile_document_example :
    (message : String) × (compile_result after_compile
        (record { is_success = true; stdout = "{}"; stderr = "" })
      ≡ text message)
    × Holds message ("a.o" ∷ "a.c:1: warning: unused" ∷ [])
compile_result-compile_document_example =
    compile_result-compile_document after_compile
      (record { is_success = true; stdout = "{}"; stderr = "" }) compiled refl refl

-- Two lines have come in an hour.
trace_args-waits_example :
    (read_lines outside.show
      (trace_args outside null).lines
      (trace_args outside null).timeout
      0
      (arrived ((1, "a: openat") ∷ (3600000, "b: openat") ∷ []))).1
    ≡ waits
trace_args-waits_example =
    trace_args-waits outside null "invalid type" ((1, "a: openat") ∷ (3600000, "b: openat") ∷ [])
      refl
