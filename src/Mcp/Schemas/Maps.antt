-- ===== src/Mcp/Schemas/Maps.antt =====
-- crates/ebpf-assist-mcp/src/tools.rs, `handle_tools_list`: the tools on maps.
use ebpf_assist.Prelude.{[], ◌∷◌}
use ebpf_assist.Json.{obj, string, strings}
use ebpf_assist.Mcp.Protocol.{ToolDefinition}

abbrev pub ebpf_map_list : ToolDefinition
ebpf_map_list = record {
  name = "ebpf_map_list";
  description =
      "List all BPF maps for a loaded program. Maps are key-value stores that eBPF programs use to store data and communicate with userspace.";
  input_schema = obj (
      ("type", string "object")
      ∷ (
        "properties",
        obj (
            (
              "id",
              obj (
                  ("type", string "integer")
                  ∷ ("description", string "Program ID returned from ebpf_load")
                  ∷ []),
            )
            ∷ []),
      )
      ∷ ("required", strings ("id" ∷ []))
      ∷ []);
}

abbrev pub ebpf_map_read : ToolDefinition
ebpf_map_read = record {
  name = "ebpf_map_read";
  description = "Read entries from a BPF map. Can read a specific key or dump all entries.";
  input_schema = obj (
      ("type", string "object")
      ∷ (
        "properties",
        obj (
            ("id", obj (("type", string "integer") ∷ ("description", string "Program ID") ∷ []))
            ∷ (
              "map_name",
              obj (
                  ("type", string "string")
                  ∷ ("description", string "Name of the map (from ebpf_map_list)")
                  ∷ []),
            )
            ∷ (
              "key",
              obj (
                  ("type", string "string")
                  ∷ (
                    "description",
                    string
                        "Optional: specific key to read (hex with 0x prefix or decimal). If omitted, dumps all entries.",
                  )
                  ∷ []),
            )
            ∷ []),
      )
      ∷ ("required", strings ("id" ∷ "map_name" ∷ []))
      ∷ []);
}

abbrev pub ebpf_map_write : ToolDefinition
ebpf_map_write = record {
  name = "ebpf_map_write";
  description =
      "Write a value to a BPF map. Useful for configuring program behavior or injecting test data.";
  input_schema = obj (
      ("type", string "object")
      ∷ (
        "properties",
        obj (
            ("id", obj (("type", string "integer") ∷ ("description", string "Program ID") ∷ []))
            ∷ (
              "map_name",
              obj (("type", string "string") ∷ ("description", string "Name of the map") ∷ []),
            )
            ∷ (
              "key",
              obj (
                  ("type", string "string")
                  ∷ ("description", string "Key (hex with 0x prefix or decimal)")
                  ∷ []),
            )
            ∷ (
              "value",
              obj (
                  ("type", string "string")
                  ∷ ("description", string "Value (hex with 0x prefix or decimal)")
                  ∷ []),
            )
            ∷ []),
      )
      ∷ ("required", strings ("id" ∷ "map_name" ∷ "key" ∷ "value" ∷ []))
      ∷ []);
}

abbrev pub ebpf_map_delete : ToolDefinition
ebpf_map_delete = record {
  name = "ebpf_map_delete";
  description = "Delete an entry from a BPF hash map. Note: Array maps don't support deletion.";
  input_schema = obj (
      ("type", string "object")
      ∷ (
        "properties",
        obj (
            ("id", obj (("type", string "integer") ∷ ("description", string "Program ID") ∷ []))
            ∷ (
              "map_name",
              obj (("type", string "string") ∷ ("description", string "Name of the map") ∷ []),
            )
            ∷ (
              "key",
              obj (
                  ("type", string "string")
                  ∷ ("description", string "Key to delete (hex with 0x prefix or decimal)")
                  ∷ []),
            )
            ∷ []),
      )
      ∷ ("required", strings ("id" ∷ "map_name" ∷ "key" ∷ []))
      ∷ []);
}
