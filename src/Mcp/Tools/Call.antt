-- ===== src/Mcp/Tools/Call.antt =====
-- crates/ebpf-assist-mcp/src/tools.rs, `handle_tools_call`: which tool a name calls, and how its result
-- or its error becomes the result of the method.
use ebpf_assist.Prelude.{String, ◌<>◌, Option, none, some, Result, ok, err, if◌then◌else◌, str_eq}
use ebpf_assist.Json.{Json}
use ebpf_assist.Daemon.Io.{Io, pure}
use ebpf_assist.Mcp.{Outside}
use ebpf_assist.Mcp.Args.{ToolCallParams}
use ebpf_assist.Mcp.Protocol.{ToolCallResult, failure, result_value}
use ebpf_assist.Mcp.Process.{World}
use ebpf_assist.Mcp.Process.Programs.{tool_new, tool_compile}
use ebpf_assist.Mcp.Process.Activity.{tool_trigger, tool_trace}
use ebpf_assist.Mcp.Process.MicroVms.{tool_vm_init, tool_vm_list, tool_vm_stop}
use ebpf_assist.Mcp.Tools.Daemon.{
  tool_load, tool_unload, tool_attach, tool_detach, tool_list, tool_status, tool_unlock,
  tool_map_list, tool_map_read, tool_map_write, tool_map_delete,
}

module _ (o : Outside) where
  abbrev pub Tool : Type 0
  Tool = Io (World o) ToolCallResult

  -- The arms of the match on the name but the last.
  unfoldable pub tool_named : (name : String) → (arguments : Json) → Option Tool
  unfolding tool_new tool_compile tool_load tool_unload tool_attach tool_detach tool_list
      tool_status tool_unlock tool_trigger tool_trace tool_map_list tool_map_read tool_map_write
      tool_map_delete tool_vm_init tool_vm_list tool_vm_stop
  tool_named name args =
      if str_eq name "ebpf_new"
      then some (tool_new o args)
      else if str_eq name "ebpf_compile"
      then some (tool_compile o args)
      else if str_eq name "ebpf_load"
      then some (tool_load o args)
      else if str_eq name "ebpf_unload"
      then some (tool_unload o args)
      else if str_eq name "ebpf_attach"
      then some (tool_attach o args)
      else if str_eq name "ebpf_detach"
      then some (tool_detach o args)
      else if str_eq name "ebpf_list"
      then some (tool_list o)
      else if str_eq name "ebpf_status"
      then some (tool_status o)
      else if str_eq name "ebpf_unlock"
      then some (tool_unlock o)
      else if str_eq name "ebpf_trigger"
      then some (tool_trigger o args)
      else if str_eq name "ebpf_trace"
      then some (tool_trace o args)
      else if str_eq name "ebpf_map_list"
      then some (tool_map_list o args)
      else if str_eq name "ebpf_map_read"
      then some (tool_map_read o args)
      else if str_eq name "ebpf_map_write"
      then some (tool_map_write o args)
      else if str_eq name "ebpf_map_delete"
      then some (tool_map_delete o args)
      else if str_eq name "ebpf_vm_init"
      then some (tool_vm_init o)
      else if str_eq name "ebpf_vm_list"
      then some (tool_vm_list o)
      else if str_eq name "ebpf_vm_stop"
      then some (tool_vm_stop o args)
      else none

  unfoldable pub or_unknown : (name : String) → Option Tool → Tool
  unfolding failure
  or_unknown name none = pure (failure ("Unknown tool: " <> name))
  or_unknown name (some tool) = tool

  unfoldable pub call_value : World o × Result String ToolCallResult → World o × Result String Json
  unfolding result_value failure
  call_value (w, ok r) = (w, ok (result_value r))
  call_value (w, err e) = (w, ok (result_value (failure e)))

  unfoldable pub perform : Result String ToolCallParams → Io (World o) Json
  unfolding tool_named call_value or_unknown
  perform (ok call) w = call_value (or_unknown call.name (tool_named call.name call.arguments) w)
  perform (err e) w = (w, err "Invalid tool call parameters")

  unfoldable pub handle_tools_call : (params : Json) → Io (World o) Json
  unfolding perform
  handle_tools_call params = perform (o.decoders.tool_call params)
