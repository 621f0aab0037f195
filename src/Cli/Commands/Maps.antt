-- ===== src/Cli/Commands/Maps.antt =====
-- crates/ebpf-assist/src/commands.rs, the commands on the maps of a program: what each prints for a
-- response.
use ebpf_assist.Prelude.{
  ℕ, Bool, true, List, [], ◌∷◌, ◌++◌, map, length, String, ◌<>◌, Option, none, some,
}
use ebpf_assist.Json.{Json, obj, arr, bool, number, string}
use ebpf_assist.Common.{MapInfo, MapEntry, Response}
use ebpf_assist.Daemon.Maps.{debug_map_type}
use ebpf_assist.Cli.{Format}
use ebpf_assist.Cli.Output.{Run, Line, out, prints_either, row, repeat}
use ebpf_assist.Cli.Errors.{report_error}
use ebpf_assist.Cli.Commands.Programs.{failure, unexpected}

abbrev u64_field : Option ℕ → List (String × Json)
u64_field none = []
u64_field (some v) = ("value_u64", number v) ∷ []

abbrev str_field : Option String → List (String × Json)
str_field none = []
str_field (some s) = ("value_str", string s) ∷ []

module _ (f : Format) where
  abbrev map_json : MapInfo → Json
  map_json m = obj (
      ("name", string m.name)
      ∷ ("type", string (debug_map_type m.map_type))
      ∷ ("key_size", number m.key_size)
      ∷ ("value_size", number m.value_size)
      ∷ ("max_entries", number m.max_entries)
      ∷ [])

  unfoldable pub map_row : MapInfo → String
  unfolding row debug_map_type
  map_row m =
      row
        ((20, m.name)
          ∷ (15, debug_map_type m.map_type)
          ∷ (10, f.show m.key_size)
          ∷ (10, f.show m.value_size)
          ∷ [])
        (f.show m.max_entries)

  abbrev map_lines : ℕ → List MapInfo → List Line
  unfolding map_row row repeat
  map_lines id [] = out ("No maps in program " <> f.show id) ∷ []
  map_lines id (m ∷ ms) =
      out ("Maps for program " <> (f.show id <> ":"))
      ∷ out (row ((20, "NAME") ∷ (15, "TYPE") ∷ (10, "KEY") ∷ (10, "VALUE") ∷ []) "MAX ENTRIES")
      ∷ out (repeat 70 "-")
      ∷ map (λ n. out (map_row n)) (m ∷ ms)

  unfoldable pub map_list : (id : ℕ) (json_output : Bool) → Response → Run
  unfolding report_error map_lines debug_map_type
  map_list id json_output (Response.maps ms) =
      prints_either json_output
        (obj (("program_id", number id) ∷ ("maps", arr (map map_json ms)) ∷ [])) (map_lines id ms)
  map_list id json_output (Response.error message code) =
      report_error json_output failure message code
  map_list id json_output _ = unexpected

  abbrev entry_json : MapEntry → Json
  entry_json e = obj (
      ("key", string (f.show_text e.key))
      ∷ ("value", string (f.show_text e.value))
      ∷ (u64_field e.value_u64 ++ str_field e.value_str))

  -- `e.value_u64.map(|v| v.to_string()).unwrap_or_default()`
  abbrev pub decimal : Option ℕ → String
  decimal none = ""
  decimal (some v) = f.show v

  unfoldable pub entry_row : MapEntry → String
  unfolding row
  entry_row e = row ((20, f.show_text e.key) ∷ (20, f.show_text e.value) ∷ []) (decimal e.value_u64)

  abbrev entry_lines : String → List MapEntry → List Line
  unfolding entry_row row repeat
  entry_lines name [] = out ("Map '" <> (name <> "' is empty")) ∷ []
  entry_lines name (e ∷ es) =
      out ("Map '" <> (name <> ("' (" <> (f.show (length (e ∷ es)) <> " entries):"))))
      ∷ out (row ((20, "KEY") ∷ (20, "VALUE (hex)") ∷ []) "VALUE (dec)")
      ∷ out (repeat 60 "-")
      ∷ map (λ x. out (entry_row x)) (e ∷ es)

  unfoldable pub map_read : (json_output : Bool) → Response → Run
  unfolding report_error entry_lines
  map_read json_output (Response.map_entries name es) =
      prints_either json_output
        (obj (("map_name", string name) ∷ ("entries", arr (map entry_json es)) ∷ []))
        (entry_lines name es)
  map_read json_output (Response.error message code) = report_error json_output failure message code
  map_read json_output _ = unexpected

  abbrev changed : String → String → (json_output : Bool) → (name key : String) → Run
  changed before between json_output name key =
      prints_either json_output
        (obj (("success", bool true) ∷ ("map_name", string name) ∷ ("key", string key) ∷ []))
        (out (before <> (name <> (between <> (key <> "'")))) ∷ [])

  unfoldable pub map_write : (json_output : Bool) → Response → Run
  unfolding report_error
  map_write json_output (Response.map_written name key) =
      changed "Wrote to map '" "' key '" json_output name (f.show_text key)
  map_write json_output (Response.error message code) =
      report_error json_output failure message code
  map_write json_output _ = unexpected

  unfoldable pub map_delete : (json_output : Bool) → Response → Run
  unfolding report_error
  map_delete json_output (Response.map_deleted name key) =
      changed "Deleted from map '" "' key '" json_output name (f.show_text key)
  map_delete json_output (Response.error message code) =
      report_error json_output failure message code
  map_delete json_output _ = unexpected
