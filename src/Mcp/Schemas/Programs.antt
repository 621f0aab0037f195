-- ===== src/Mcp/Schemas/Programs.antt =====
-- crates/ebpf-assist-mcp/src/tools.rs, `handle_tools_list`: the tools on programs.
use ebpf_assist.Prelude.{[], ◌∷◌}
use ebpf_assist.Json.{obj, string, strings}
use ebpf_assist.Mcp.Protocol.{ToolDefinition}

abbrev pub ebpf_new : ToolDefinition
ebpf_new = record {
  name = "ebpf_new";
  description =
      "Create a new eBPF program from a template. Templates include kprobe (function entry), kretprobe (function return), tracepoint, xdp (packet processing), and raw_tracepoint.";
  input_schema = obj (
      ("type", string "object")
      ∷ (
        "properties",
        obj (
            (
              "template",
              obj (
                  ("type", string "string")
                  ∷ (
                    "enum",
                    strings ("kprobe" ∷ "kretprobe" ∷ "tracepoint" ∷ "xdp" ∷ "raw_tracepoint" ∷ []),
                  )
                  ∷ (
                    "description",
                    string "Template type: kprobe, kretprobe, tracepoint, xdp, raw_tracepoint",
                  )
                  ∷ []),
            )
            ∷ (
              "name",
              obj (
                  ("type", string "string")
                  ∷ ("description", string "Program name (used for filename and function name)")
                  ∷ []),
            )
            ∷ (
              "target",
              obj (
                  ("type", string "string")
                  ∷ (
                    "description",
                    string
                        "Target for the template (e.g., 'do_sys_openat2' for kprobe, 'syscalls/sys_enter_openat' for tracepoint)",
                  )
                  ∷ []),
            )
            ∷ (
              "output_dir",
              obj (
                  ("type", string "string")
                  ∷ ("description", string "Output directory (default: current directory)")
                  ∷ []),
            )
            ∷ []),
      )
      ∷ ("required", strings ("template" ∷ "name" ∷ []))
      ∷ []);
}

abbrev pub ebpf_compile : ToolDefinition
ebpf_compile = record {
  name = "ebpf_compile";
  description =
      "Compile an eBPF C source file to an object file. Wraps clang with the correct flags for BPF target.";
  input_schema = obj (
      ("type", string "object")
      ∷ (
        "properties",
        obj (
            (
              "source",
              obj (
                  ("type", string "string")
                  ∷ ("description", string "Path to the eBPF C source file")
                  ∷ []),
            )
            ∷ (
              "output",
              obj (
                  ("type", string "string")
                  ∷ ("description", string "Output path for object file (default: source.o)")
                  ∷ []),
            )
            ∷ (
              "opt_level",
              obj (
                  ("type", string "integer")
                  ∷ ("description", string "Optimization level 0-3 (default: 2)")
                  ∷ []),
            )
            ∷ []),
      )
      ∷ ("required", strings ("source" ∷ []))
      ∷ []);
}

abbrev pub ebpf_load : ToolDefinition
ebpf_load = record {
  name = "ebpf_load";
  description =
      "Load an eBPF program from an object file. Returns the program ID for use with attach/detach. Use isolate=true to run in a MicroVM for safe testing of risky programs.";
  input_schema = obj (
      ("type", string "object")
      ∷ (
        "properties",
        obj (
            (
              "path",
              obj (
                  ("type", string "string")
                  ∷ ("description", string "Path to the eBPF object file (.o)")
                  ∷ []),
            )
            ∷ (
              "program_name",
              obj (
                  ("type", string "string")
                  ∷ (
                    "description",
                    string
                        "Name of the program within the object file (required if multiple programs exist)",
                  )
                  ∷ []),
            )
            ∷ (
              "isolate",
              obj (
                  ("type", string "boolean")
                  ∷ (
                    "description",
                    string
                        "Run in isolated MicroVM for safe testing (default: false). Useful for XDP, TC, or experimental programs that might crash the kernel.",
                  )
                  ∷ []),
            )
            ∷ []),
      )
      ∷ ("required", strings ("path" ∷ []))
      ∷ []);
}

abbrev pub ebpf_unload : ToolDefinition
ebpf_unload = record {
  name = "ebpf_unload";
  description = "Unload a previously loaded eBPF program by its ID.";
  input_schema = obj (
      ("type", string "object")
      ∷ (
        "properties",
        obj (
            (
              "id",
              obj (
                  ("type", string "integer")
                  ∷ ("description", string "Program ID returned from ebpf_load")
                  ∷ []),
            )
            ∷ []),
      )
      ∷ ("required", strings ("id" ∷ []))
      ∷ []);
}

abbrev pub ebpf_attach : ToolDefinition
ebpf_attach = record {
  name = "ebpf_attach";
  description =
      "Attach a loaded eBPF program to a kernel hook (kprobe, tracepoint, XDP interface, etc.).";
  input_schema = obj (
      ("type", string "object")
      ∷ (
        "properties",
        obj (
            (
              "id",
              obj (
                  ("type", string "integer")
                  ∷ ("description", string "Program ID returned from ebpf_load")
                  ∷ []),
            )
            ∷ (
              "target",
              obj (
                  ("type", string "string")
                  ∷ (
                    "description",
                    string
                        "Attach target: function name for kprobe (e.g., 'do_sys_openat2'), 'category:name' for tracepoint (e.g., 'syscalls:sys_enter_openat'), or interface name for XDP (e.g., 'eth0')",
                  )
                  ∷ []),
            )
            ∷ []),
      )
      ∷ ("required", strings ("id" ∷ "target" ∷ []))
      ∷ []);
}

abbrev pub ebpf_detach : ToolDefinition
ebpf_detach = record {
  name = "ebpf_detach";
  description = "Detach an eBPF program from its kernel hook.";
  input_schema = obj (
      ("type", string "object")
      ∷ (
        "properties",
        obj (
            ("id", obj (("type", string "integer") ∷ ("description", string "Program ID") ∷ []))
            ∷ []),
      )
      ∷ ("required", strings ("id" ∷ []))
      ∷ []);
}
