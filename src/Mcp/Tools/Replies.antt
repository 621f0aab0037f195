-- ===== src/Mcp/Tools/Replies.antt =====
-- crates/ebpf-assist-mcp/src/tools.rs: the text of a tool for each response of the daemon. The
-- variation selector after the warning sign of `tool_load` is left out, since a string literal here
-- does not hold it.
use ebpf_assist.Prelude.{ℕ, String, ◌<>◌, List, [], ◌∷◌, length, Option, none, some}
use ebpf_assist.Common.{Response, ErrorCode, debug_code, debug_type, ProgramInfo, MapInfo, MapEntry}
use ebpf_assist.Daemon.Maps.{debug_map_type}
use ebpf_assist.Cli.Output.{row, repeat}
use ebpf_assist.Cli.Commands.Programs.{yes_no, or_dash}
use ebpf_assist.Cli.Commands.Auth.{capability_list}
use ebpf_assist.Mcp.{Outside}
use ebpf_assist.Mcp.Protocol.{ToolCallResult, text, failure}

-- The `Response::Error` branch of every tool
unfoldable pub refused : (message : String) → ErrorCode → ToolCallResult
unfolding debug_code failure
refused message code = failure ("[" <> (debug_code code <> ("] " <> message)))

unfoldable pub unexpected : ToolCallResult
unfolding failure
unexpected = failure "Unexpected response from daemon"

unfoldable pub unlock : Response → ToolCallResult
unfolding text refused
unlock Response.unlocked =
    text
      "Authorization granted. You can now load and attach eBPF programs.\nAuthorization is cached for 15 minutes."
unlock (Response.error message code) = refused message code
unlock _ = unexpected

abbrev warning_text : Option String → String
warning_text none = ""
warning_text (some w) = "\n\n⚠ " <> w

module _ (o : Outside) where
  unfoldable pub load : Response → ToolCallResult
  unfolding text refused debug_type
  load (Response.loaded id name ty warning) = text (
      "Loaded eBPF program:\n  ID: "
      <> (o.show id
          <> ("\n  Name: "
              <> (name
                  <> ("\n  Type: "
                      <> (debug_type ty
                          <> (warning_text warning
                              <> ("\n\nUse ebpf_attach with id="
                                  <> (o.show id <> " to attach to a kernel hook.")))))))))
  load (Response.error message code) = refused message code
  load _ = unexpected

  unfoldable pub unload : Response → ToolCallResult
  unfolding text refused
  unload (Response.unloaded id) = text ("Unloaded program " <> o.show id)
  unload (Response.error message code) = refused message code
  unload _ = unexpected

  unfoldable pub attach : Response → ToolCallResult
  unfolding text refused
  attach (Response.attached_to id target) = text (
      "Attached program "
      <> (o.show id
          <> (" to "
              <> (target
                  <> "\n\nThe eBPF program is now active. Use ebpf_trigger to generate activity, or ebpf_trace to read bpf_printk output."))))
  attach (Response.error message code) = refused message code
  attach _ = unexpected

  unfoldable pub detach : Response → ToolCallResult
  unfolding text refused
  detach (Response.detached id) = text ("Detached program " <> o.show id)
  detach (Response.error message code) = refused message code
  detach _ = unexpected

  abbrev program_rows : List ProgramInfo → String
  unfolding row debug_type
  program_rows [] = ""
  program_rows (p ∷ ps) =
      row
        ((6, o.show p.id)
          ∷ (20, p.name)
          ∷ (15, debug_type p.program_type)
          ∷ (10, yes_no p.attached)
          ∷ [])
        (or_dash p.attach_point)
      <> ("\n" <> program_rows ps)

  abbrev program_table : List ProgramInfo → String
  unfolding program_rows row repeat
  program_table [] = "No eBPF programs loaded"
  program_table (p ∷ ps) =
      "Loaded eBPF programs:\n\n"
      <> (row ((6, "ID") ∷ (20, "NAME") ∷ (15, "TYPE") ∷ (10, "ATTACHED") ∷ []) "TARGET"
          <> ("\n" <> (repeat 70 "-" <> ("\n" <> program_rows (p ∷ ps)))))

  unfoldable pub list : Response → ToolCallResult
  unfolding text refused program_table
  list (Response.programs ps) = text (program_table ps)
  list (Response.error message code) = refused message code
  list _ = unexpected

  unfoldable pub status : Response → ToolCallResult
  unfolding text refused
  status (Response.status_is version uptime_secs programs_loaded capabilities) = text (
      "ebpf-assistd status:\n  Version: "
      <> (version
          <> ("\n  Uptime: "
              <> (o.show uptime_secs
                  <> ("s\n  Programs loaded: "
                      <> (o.show programs_loaded
                          <> ("\n  Capabilities: " <> capability_list capabilities)))))))
  status (Response.error message code) = refused message code
  status _ = unexpected

  abbrev map_rows : List MapInfo → String
  unfolding row debug_map_type
  map_rows [] = ""
  map_rows (m ∷ ms) =
      row
        ((20, m.name)
          ∷ (15, debug_map_type m.map_type)
          ∷ (10, o.show m.key_size)
          ∷ (10, o.show m.value_size)
          ∷ [])
        (o.show m.max_entries)
      <> ("\n" <> map_rows ms)

  abbrev map_table : (id : ℕ) → List MapInfo → String
  unfolding map_rows row repeat
  map_table id [] = "No maps in program " <> o.show id
  map_table id (m ∷ ms) =
      "Maps for program "
      <> (o.show id
          <> (":\n\n"
              <> (row ((20, "NAME") ∷ (15, "TYPE") ∷ (10, "KEY SIZE") ∷ (10, "VAL SIZE") ∷ [])
                    "MAX ENTRIES"
                  <> ("\n" <> (repeat 70 "-" <> ("\n" <> map_rows (m ∷ ms)))))))

  unfoldable pub map_list : (id : ℕ) → Response → ToolCallResult
  unfolding text refused map_table
  map_list id (Response.maps ms) = text (map_table id ms)
  map_list id (Response.error message code) = refused message code
  map_list id _ = unexpected

  abbrev decimal : Option ℕ → String
  decimal none = ""
  decimal (some v) = o.show v

  abbrev entry_rows : List MapEntry → String
  unfolding row
  entry_rows [] = ""
  entry_rows (e ∷ es) =
      row ((20, o.show_text e.key) ∷ (20, o.show_text e.value) ∷ []) (decimal e.value_u64)
      <> ("\n" <> entry_rows es)

  abbrev entry_table : (name : String) → List MapEntry → String
  unfolding entry_rows row repeat
  entry_table name [] = "Map '" <> (name <> "' is empty")
  entry_table name (e ∷ es) =
      "Map '"
      <> (name
          <> ("' ("
              <> (o.show (length (e ∷ es))
                  <> (" entries):\n\n"
                      <> (row ((20, "KEY") ∷ (20, "VALUE (hex)") ∷ []) "VALUE (dec)"
                          <> ("\n" <> (repeat 60 "-" <> ("\n" <> entry_rows (e ∷ es)))))))))

  unfoldable pub map_read : Response → ToolCallResult
  unfolding text refused entry_table
  map_read (Response.map_entries name es) = text (entry_table name es)
  map_read (Response.error message code) = refused message code
  map_read _ = unexpected

  unfoldable pub map_write : Response → ToolCallResult
  unfolding text refused
  map_write (Response.map_written name key) = text (
      "Wrote to map '"
      <> (name
          <> ("' key '"
              <> (o.show_text key <> "'\n\nUse ebpf_map_read to verify the written value."))))
  map_write (Response.error message code) = refused message code
  map_write _ = unexpected

  unfoldable pub map_delete : Response → ToolCallResult
  unfolding text refused
  map_delete (Response.map_deleted name key) =
      text ("Deleted from map '" <> (name <> ("' key '" <> (o.show_text key <> "'"))))
  map_delete (Response.error message code) = refused message code
  map_delete _ = unexpected
