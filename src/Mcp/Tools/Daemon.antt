-- ===== src/Mcp/Tools/Daemon.antt =====
-- crates/ebpf-assist-mcp/src/tools.rs: the tools that ask the daemon. Each decodes its arguments, sends
-- one request, and words the response.
use ebpf_assist.Prelude.{◌<>◌, if◌then◌else◌}
use ebpf_assist.Json.{Json}
use ebpf_assist.Common.{Request, Response}
use ebpf_assist.Daemon.Io.{Io, lift, pure, context, ◌>>=◌}
use ebpf_assist.Mcp.{Outside}
use ebpf_assist.Mcp.Protocol.{ToolCallResult}
use ebpf_assist.Mcp.Process.{World}
use ebpf_assist.Mcp.Process.Programs.{tool_load_isolated}
use ebpf_assist.Mcp.Tools.{daemon_request}
use ebpf_assist.Mcp.Tools.Replies

module _ (o : Outside) where
  -- A request, and the words for its response.
  unfoldable pub ask : Request → (Response → ToolCallResult) → Io (World o) ToolCallResult
  unfolding daemon_request
  ask request reply = daemon_request o.socket request >>= λ response. pure (reply response)

  unfoldable pub tool_load : Json → Io (World o) ToolCallResult
  unfolding ask Replies.load tool_load_isolated
  tool_load args = lift (o.decoders.load args) >>= λ a.
      context ("File not found: " <> a.path) (λ w. (w, o.canonicalize a.path w)) >>= λ path.
      if a.isolate
      then tool_load_isolated o path a.program_name
      else ask (Request.load path a.program_name) (Replies.load o)

  unfoldable pub tool_unload : Json → Io (World o) ToolCallResult
  unfolding ask Replies.unload
  tool_unload args = lift (o.decoders.id args) >>= λ a. ask (Request.unload a.id) (Replies.unload o)

  unfoldable pub tool_attach : Json → Io (World o) ToolCallResult
  unfolding ask Replies.attach
  tool_attach args =
      lift (o.decoders.attach args) >>= λ a. ask (Request.attach a.id a.target) (Replies.attach o)

  unfoldable pub tool_detach : Json → Io (World o) ToolCallResult
  unfolding ask Replies.detach
  tool_detach args = lift (o.decoders.id args) >>= λ a. ask (Request.detach a.id) (Replies.detach o)

  unfoldable pub tool_list : Io (World o) ToolCallResult
  unfolding ask Replies.list
  tool_list = ask Request.list_all (Replies.list o)

  unfoldable pub tool_status : Io (World o) ToolCallResult
  unfolding ask Replies.status
  tool_status = ask Request.status (Replies.status o)

  unfoldable pub tool_unlock : Io (World o) ToolCallResult
  unfolding ask Replies.unlock
  tool_unlock = ask Request.unlock Replies.unlock

  unfoldable pub tool_map_list : Json → Io (World o) ToolCallResult
  unfolding ask Replies.map_list
  tool_map_list args =
      lift (o.decoders.id args) >>= λ a. ask (Request.map_list a.id) (Replies.map_list o a.id)

  unfoldable pub tool_map_read : Json → Io (World o) ToolCallResult
  unfolding ask Replies.map_read
  tool_map_read args = lift (o.decoders.map_read args) >>= λ a.
      ask (Request.map_read a.id a.map_name a.key) (Replies.map_read o)

  unfoldable pub tool_map_write : Json → Io (World o) ToolCallResult
  unfolding ask Replies.map_write
  tool_map_write args = lift (o.decoders.map_write args) >>= λ a.
      ask (Request.map_write a.id a.map_name a.key a.value) (Replies.map_write o)

  unfoldable pub tool_map_delete : Json → Io (World o) ToolCallResult
  unfolding ask Replies.map_delete
  tool_map_delete args = lift (o.decoders.map_delete args) >>= λ a.
      ask (Request.map_delete a.id a.map_name a.key) (Replies.map_delete o)
