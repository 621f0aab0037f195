-- ===== src/Mcp/Schemas/Session.antt =====
-- crates/ebpf-assist-mcp/src/tools.rs, `handle_tools_list`: the tools on the daemon, on the authorization and on activity.
use ebpf_assist.Prelude.{[], ◌∷◌}
use ebpf_assist.Json.{obj, string, strings}
use ebpf_assist.Mcp.Protocol.{ToolDefinition}

abbrev pub ebpf_list : ToolDefinition
ebpf_list = record {
  name = "ebpf_list";
  description = "List all loaded eBPF programs managed by ebpf-assist.";
  input_schema = obj (("type", string "object") ∷ ("properties", obj ([])) ∷ []);
}

abbrev pub ebpf_status : ToolDefinition
ebpf_status = record {
  name = "ebpf_status";
  description = "Get ebpf-assist daemon status including version, uptime, and capabilities.";
  input_schema = obj (("type", string "object") ∷ ("properties", obj ([])) ∷ []);
}

abbrev pub ebpf_unlock : ToolDefinition
ebpf_unlock = record {
  name = "ebpf_unlock";
  description =
      "Authenticate with polkit to enable eBPF operations. This triggers a GUI password prompt. Authorization is cached for 15 minutes.";
  input_schema = obj (("type", string "object") ∷ ("properties", obj ([])) ∷ []);
}

abbrev pub ebpf_trigger : ToolDefinition
ebpf_trigger = record {
  name = "ebpf_trigger";
  description =
      "Trigger kernel activity to test eBPF programs. Useful for generating syscalls, filesystem events, process events, or network activity that your eBPF program can intercept.";
  input_schema = obj (
      ("type", string "object")
      ∷ (
        "properties",
        obj (
            (
              "category",
              obj (
                  ("type", string "string")
                  ∷ ("enum", strings ("syscall" ∷ "fs" ∷ "proc" ∷ "net" ∷ []))
                  ∷ ("description", string "Category of activity to trigger")
                  ∷ []),
            )
            ∷ (
              "operation",
              obj (
                  ("type", string "string")
                  ∷ (
                    "description",
                    string
                        "Specific operation: syscall (openat, read, write, execve, connect), fs (create, delete, rename, chmod), proc (fork, exec, exit), net (tcp-connect, udp-send, ping, dns)",
                  )
                  ∷ []),
            )
            ∷ (
              "args",
              obj (
                  ("type", string "array")
                  ∷ ("items", obj (("type", string "string") ∷ []))
                  ∷ (
                    "description",
                    string "Arguments for the operation (e.g., file paths, addresses)",
                  )
                  ∷ []),
            )
            ∷ []),
      )
      ∷ ("required", strings ("category" ∷ "operation" ∷ []))
      ∷ []);
}

abbrev pub ebpf_trace : ToolDefinition
ebpf_trace = record {
  name = "ebpf_trace";
  description =
      "Read output from bpf_printk (the trace_pipe). Use this to see what your eBPF program is logging. Requires root access to read trace_pipe.";
  input_schema = obj (
      ("type", string "object")
      ∷ (
        "properties",
        obj (
            (
              "lines",
              obj (
                  ("type", string "integer")
                  ∷ ("description", string "Number of lines to read (default: 10)")
                  ∷ []),
            )
            ∷ (
              "timeout",
              obj (
                  ("type", string "integer")
                  ∷ ("description", string "Timeout in seconds (default: 5)")
                  ∷ []),
            )
            ∷ []),
      )
      ∷ []);
}
