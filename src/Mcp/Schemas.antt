-- ===== src/Mcp/Schemas.antt =====
-- crates/ebpf-assist-mcp/src/tools.rs, `handle_tools_list`: the tools that the server lists.
pub mod Programs
pub mod Session
pub mod Maps
pub mod MicroVms
use ebpf_assist.Prelude.{String, List, [], ◌∷◌}
use ebpf_assist.Json.{Json, obj, arr}
use ebpf_assist.Mcp.Protocol.{ToolDefinition, definition_value}
use ebpf_assist.Mcp.Schemas.Programs.{
  ebpf_new, ebpf_compile, ebpf_load, ebpf_unload, ebpf_attach, ebpf_detach,
}
use ebpf_assist.Mcp.Schemas.Session.{ebpf_list, ebpf_status, ebpf_unlock, ebpf_trigger, ebpf_trace}
use ebpf_assist.Mcp.Schemas.Maps.{ebpf_map_list, ebpf_map_read, ebpf_map_write, ebpf_map_delete}
use ebpf_assist.Mcp.Schemas.MicroVms.{ebpf_vm_init, ebpf_vm_list, ebpf_vm_stop}

unfoldable pub tools : List ToolDefinition
tools =
    ebpf_new ∷ ebpf_compile ∷ ebpf_load ∷ ebpf_unload ∷ ebpf_attach ∷ ebpf_detach ∷ ebpf_list
    ∷ ebpf_status ∷ ebpf_unlock ∷ ebpf_trigger ∷ ebpf_trace ∷ ebpf_map_list ∷ ebpf_map_read
    ∷ ebpf_map_write ∷ ebpf_map_delete ∷ ebpf_vm_init ∷ ebpf_vm_list ∷ ebpf_vm_stop ∷ []

abbrev definition_values : List ToolDefinition → List Json
definition_values [] = []
definition_values (t ∷ ts) = definition_value t ∷ definition_values ts

unfoldable pub handle_tools_list : Json
unfolding tools
handle_tools_list = obj (("tools", arr (definition_values tools)) ∷ [])
