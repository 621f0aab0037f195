-- ===== src/Mcp/Server/Laws.antt =====
-- What the MCP client can rely on in the server's responses.
use ebpf_assist.Prelude.{
  String, ◌<>◌, List, [], ◌∷◌, map, Option, none, some, Result, ok, err, if◌then◌else◌, str_eq, ◌≡◌,
  refl, ◌⊎◌, inl, inr, Bool-cases,
}
use ebpf_assist.Json.{Json, null}
use ebpf_assist.Vm.Protocol.{ℤ}
use ebpf_assist.Mcp.{Outside}
use ebpf_assist.Mcp.Args.{ToolCallParams}
use ebpf_assist.Mcp.Protocol.{
  JsonRpcRequest, JsonRpcResponse, JsonRpcError, McpMethod, initialize, tools_list, tools_call,
  ping, from_str, method_not_found, tool_failure, parse_error, rpc_success, rpc_error,
  ToolCallResult,
}
use ebpf_assist.Mcp.Process.{World}
use ebpf_assist.Mcp.Tools.Call.{handle_tools_call, perform, call_value, or_unknown, tool_named}
use ebpf_assist.Mcp.Server.{
  Codec, Session, answer, dispatch, handle_request, respond_with, run_method, serve, turn,
}

-- A response of JSON-RPC 2.0 to the request of this id: a result or an error, and not both.
abbrev pub IsReply : (id : Json) → JsonRpcResponse → Type 0
IsReply id r =
    (r.jsonrpc ≡ "2.0")
    × (r.id ≡ id)
    × (((value : Json) × (r.result ≡ some value) × (r.error ≡ none))
        ⊎ ((e : JsonRpcError) × (r.result ≡ none) × (r.error ≡ some e)))

-- The id that the answer to a line carries.
abbrev pub answered_id : Result String JsonRpcRequest → Json
answered_id (ok request) = request.id
answered_id (err e) = null

-- The error that a request meets.
abbrev error_of : ℤ → String → JsonRpcError
error_of code message = record { code = code; message = message; data_value = none }

module _ (o : Outside) where
  respond_with-IsReply :
      (id : Json) (r : World o × Result String Json) → IsReply id (respond_with o id r).1
  unfolding rpc_success rpc_error respond_with
  respond_with-IsReply id (w, ok value) = (refl, refl, inl (value, refl, refl))
  respond_with-IsReply id (w, err e) = (refl, refl, inr (error_of tool_failure e, refl, refl))

  dispatch-IsReply :
      (request : JsonRpcRequest) (method : Option McpMethod) (w : World o)
      → IsReply request.id (dispatch o request method w).1
  unfolding dispatch rpc_error
  dispatch-IsReply request (some method) w =
      respond_with-IsReply request.id (run_method o method request.params w)
  dispatch-IsReply request none w = (
    refl,
    refl,
    inr (error_of method_not_found ("Method not found: " <> request.method), refl, refl),
  )

  answer-IsReply :
      (c : Codec) (line : Result String JsonRpcRequest) (w : World o)
      → IsReply (answered_id line) (answer o c line w).1
  unfolding answer handle_request rpc_error
  answer-IsReply c (ok request) w = dispatch-IsReply request (from_str request.method) w
  answer-IsReply c (err e) w =
      (refl, refl, inr (error_of parse_error ("Parse error: " <> e), refl, refl))

  -- The error of a call: its parameters, if they are not those of a tool call.
  abbrev call_error : Result String ToolCallParams → Option JsonRpcError
  call_error (ok call) = none
  call_error (err e) = some (error_of tool_failure "Invalid tool call parameters")

  abbrev method_error : JsonRpcRequest → Option McpMethod → Option JsonRpcError
  method_error request none =
      some (error_of method_not_found ("Method not found: " <> request.method))
  method_error request (some tools_call) = call_error (o.decoders.tool_call request.params)
  method_error request (some _) = none

  unfoldable pub error_for : JsonRpcRequest → Option JsonRpcError
  unfolding from_str
  error_for request = method_error request (from_str request.method)

  call_value-error :
      (id : Json) (r : World o × Result String ToolCallResult)
      → (respond_with o id (call_value o r)).1.error ≡ none
  unfolding respond_with rpc_success call_value
  call_value-error id (w, ok r) = refl
  call_value-error id (w, err e) = refl

  perform-error :
      (id : Json) (call : Result String ToolCallParams) (w : World o)
      → (respond_with o id (perform o call w)).1.error ≡ call_error call
  unfolding respond_with rpc_error perform
  perform-error id (ok call) w =
      call_value-error id (or_unknown o call.name (tool_named o call.name call.arguments) w)
  perform-error id (err e) w = refl

  dispatch-error :
      (request : JsonRpcRequest) (method : Option McpMethod) (w : World o)
      → (dispatch o request method w).1.error ≡ method_error request method
  unfolding dispatch rpc_error rpc_success run_method handle_tools_call
  dispatch-error request none w = refl
  dispatch-error request (some initialize) w = refl
  dispatch-error request (some tools_list) w = refl
  dispatch-error request (some tools_call) w =
      perform-error request.id (o.decoders.tool_call request.params) w
  dispatch-error request (some ping) w = refl

  -- A request meets a JSON-RPC error in two cases only, an unknown method and a call whose
  -- parameters are not those of a tool call. Whatever goes wrong in a tool, an unknown one included,
  -- is a result.
  pub handle_request-error :
      (request : JsonRpcRequest) (w : World o)
      → (handle_request o request w).1.error ≡ error_for request
  unfolding handle_request error_for
  handle_request-error request w = dispatch-error request (from_str request.method) w

  module _ (c : Codec) where
    -- The lines that the server answers, trimmed and parsed.
    abbrev pub spoken : List String → List (Result String JsonRpcRequest)
    spoken [] = []
    spoken (line ∷ lines) =
        if str_eq (c.trim line) "" then spoken lines else c.parse (c.trim line) ∷ spoken lines

    -- A list of responses, each the reply to the line in its place.
    abbrev pub Replies : List (Result String JsonRpcRequest) → List JsonRpcResponse → Type 0
    Replies [] [] = Unit {0}
    Replies (line ∷ lines) (r ∷ rs) = IsReply (answered_id line) r × Replies lines rs
    Replies _ _ = ⊥

    abbrev then_replies :
        World o × JsonRpcResponse → (World o → List JsonRpcResponse) → List JsonRpcResponse
    then_replies (w, r) rest = r ∷ rest w

    abbrev pub replies : World o → List (Result String JsonRpcRequest) → List JsonRpcResponse
    replies w [] = []
    replies w (line ∷ lines) = then_replies (answer o c line w) λ w'. replies w' lines

    then_replies-Replies :
        (line : Result String JsonRpcRequest) (lines : List (Result String JsonRpcRequest))
        (a : World o × JsonRpcResponse) (rest : World o → List JsonRpcResponse)
        → IsReply (answered_id line) a.1
        → ((w : World o) → Replies lines (rest w))
        → Replies (line ∷ lines) (then_replies a rest)
    then_replies-Replies line lines (w, r) rest first more = (first, more w)

    replies-Replies :
        (w : World o) (lines : List (Result String JsonRpcRequest))
        → Replies lines (replies w lines)
    replies-Replies w [] = tt
    replies-Replies w (line ∷ lines) =
        then_replies-Replies line lines (answer o c line w) (λ w'. replies w' lines)
          (answer-IsReply c line w) λ w'. replies-Replies w' lines

    turn-written :
        (text : JsonRpcResponse → String) (a : World o × JsonRpcResponse)
        (rest : World o → Session o c) (more : World o → List JsonRpcResponse)
        → ((r : JsonRpcResponse) → c.print r ≡ ok (text r))
        → ((w : World o)
            → ((rest w).ended ≡ ok tt) × ((rest w).written ≡ map (λ r. text r <> "\n") (more w)))
        → ((turn o c a rest).ended ≡ ok tt)
          × ((turn o c a rest).written ≡ map (λ r. text r <> "\n") (then_replies a more))
    turn-written text (w, r) rest more prints same =
        rw (prints r, (same w).0, (same w).1) (refl, refl)

    serve-written :
        (text : JsonRpcResponse → String) (w : World o) (lines : List String)
        → ((r : JsonRpcResponse) → c.print r ≡ ok (text r))
        → ((serve o c w lines).ended ≡ ok tt)
          × ((serve o c w lines).written ≡ map (λ r. text r <> "\n") (replies w (spoken lines)))
    unfolding serve
    serve-written text w [] prints = (refl, refl)
    serve-written text w (line ∷ lines) prints = elim (Bool-cases (str_eq (c.trim line) "")) [
      | inl blank ↦ rw blank (serve-written text w lines prints)
      | inr words ↦ rw words (
          turn-written text (answer o c (c.parse (c.trim line)) w) (λ w'. serve o c w' lines)
            (λ w'. replies w' (spoken lines)) prints λ w'. serve-written text w' lines prints)
    ]

    -- Where every response can be printed, the server reads to the end of its input and writes one
    -- line for each line that is not blank, in their order. Each is the reply to its line: a
    -- JSON-RPC 2.0 response with the id of the request, or `null` where the line is no request, and
    -- with a result or an error but not both.
    pub serve-Replies :
        (text : JsonRpcResponse → String) (w : World o) (lines : List String)
        → ((r : JsonRpcResponse) → c.print r ≡ ok (text r))
        → ((serve o c w lines).ended ≡ ok tt)
          × ((rs : List JsonRpcResponse) × Replies (spoken lines) rs
              × ((serve o c w lines).written ≡ map (λ r. text r <> "\n") rs))
    serve-Replies text w lines prints =
        let written = serve-written text w lines prints in
        (written.0, (replies w (spoken lines), replies-Replies w (spoken lines), written.1))
