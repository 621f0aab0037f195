-- ===== src/Mcp/Schemas/MicroVms.antt =====
-- crates/ebpf-assist-mcp/src/tools.rs, `handle_tools_list`: the tools on microVMs.
use ebpf_assist.Prelude.{[], ◌∷◌}
use ebpf_assist.Json.{obj, string, strings}
use ebpf_assist.Mcp.Protocol.{ToolDefinition}

abbrev pub ebpf_vm_init : ToolDefinition
ebpf_vm_init = record {
  name = "ebpf_vm_init";
  description =
      "Check MicroVM environment status (KVM access, required files). Run this before using isolate=true.";
  input_schema = obj (("type", string "object") ∷ ("properties", obj ([])) ∷ []);
}

abbrev pub ebpf_vm_list : ToolDefinition
ebpf_vm_list = record {
  name = "ebpf_vm_list";
  description = "List all running MicroVMs used for isolated eBPF testing.";
  input_schema = obj (("type", string "object") ∷ ("properties", obj ([])) ∷ []);
}

abbrev pub ebpf_vm_stop : ToolDefinition
ebpf_vm_stop = record {
  name = "ebpf_vm_stop";
  description = "Stop a running MicroVM by its ID.";
  input_schema = obj (
      ("type", string "object")
      ∷ (
        "properties",
        obj (
            (
              "vm_id",
              obj (
                  ("type", string "string")
                  ∷ (
                    "description",
                    string "VM ID to stop (from ebpf_load with isolate=true or ebpf_vm_list)",
                  )
                  ∷ []),
            )
            ∷ []),
      )
      ∷ ("required", strings ("vm_id" ∷ []))
      ∷ []);
}
