-- ===== src/Cli/Commands/Programs.antt =====
-- crates/ebpf-assist/src/commands.rs, the commands on programs: what each prints for a response. The variation selector after the warning sign
-- of `load` is left out, since a string literal here does not hold it.
use ebpf_assist.Prelude.{
  Bool, true, false, List, [], ◌∷◌, ◌++◌, map, String, ◌<>◌, Option, none, some, if◌then◌else◌,
}
use ebpf_assist.Json.{Json, obj, arr, bool, number, string, or_null}
use ebpf_assist.Common.{ProgramInfo, debug_type, Response}
use ebpf_assist.Cli.{Format}
use ebpf_assist.Cli.Output.{Run, Line, out, error_out, bail, prints_either, row, repeat}
use ebpf_assist.Cli.Errors.{report_error}

abbrev pub failure : List (String × Json)
failure = ("success", bool false) ∷ []

abbrev pub unexpected : Run
unexpected = bail "Unexpected response from daemon"

abbrev with_warning : Option String → List (String × Json)
with_warning none = []
with_warning (some w) = ("warning", string w) ∷ []

abbrev warn_first : Option String → List Line
warn_first none = []
warn_first (some w) = error_out ("\n⚠  " <> (w <> "\n")) ∷ []

abbrev pub yes_no : Bool → String
yes_no b = if b then "yes" else "no"

abbrev pub or_dash : Option String → String
or_dash none = "-"
or_dash (some s) = s

module _ (f : Format) where
  unfoldable pub load : (json_output : Bool) → Response → Run
  unfolding debug_type report_error
  load json_output (Response.loaded id name ty warning) =
      prints_either json_output
        (obj (
          ("success", bool true)
          ∷ ("id", number id)
          ∷ ("name", string name)
          ∷ ("type", string (debug_type ty))
          ∷ with_warning warning))
        (warn_first warning
          ++ out "Loaded program:"
            ∷ out ("  ID:   " <> f.show id)
            ∷ out ("  Name: " <> name)
            ∷ out ("  Type: " <> debug_type ty)
            ∷ out ("\nNext: ebpf-assist attach " <> (f.show id <> " <target>"))
            ∷ [])
  load json_output (Response.error message code) = report_error json_output failure message code
  load json_output _ = unexpected

  unfoldable pub unload : (json_output : Bool) → Response → Run
  unfolding report_error
  unload json_output (Response.unloaded id) =
      prints_either json_output (obj (("success", bool true) ∷ ("id", number id) ∷ []))
        (out ("Unloaded program " <> f.show id) ∷ [])
  unload json_output (Response.error message code) = report_error json_output failure message code
  unload json_output _ = unexpected

  unfoldable pub attach : (json_output : Bool) → Response → Run
  unfolding report_error
  attach json_output (Response.attached_to id target) =
      prints_either json_output
        (obj (("success", bool true) ∷ ("id", number id) ∷ ("target", string target) ∷ []))
        (out ("Attached program " <> (f.show id <> (" to " <> target)))
          ∷ out "\nNext steps:"
          ∷ out "  1. Trigger activity: ebpf-assist trigger syscall openat /tmp/test"
          ∷ out "  2. Read output: ebpf-assist output trace"
          ∷ [])
  attach json_output (Response.error message code) = report_error json_output failure message code
  attach json_output _ = unexpected

  unfoldable pub detach : (json_output : Bool) → Response → Run
  unfolding report_error
  detach json_output (Response.detached id) =
      prints_either json_output (obj (("success", bool true) ∷ ("id", number id) ∷ []))
        (out ("Detached program " <> f.show id) ∷ [])
  detach json_output (Response.error message code) = report_error json_output failure message code
  detach json_output _ = unexpected

  abbrev program_json : ProgramInfo → Json
  program_json p = obj (
      ("id", number p.id)
      ∷ ("name", string p.name)
      ∷ ("type", string (debug_type p.program_type))
      ∷ ("attached", bool p.attached)
      ∷ ("target", or_null p.attach_point)
      ∷ [])

  unfoldable pub program_row : ProgramInfo → String
  unfolding row debug_type
  program_row p =
      row
        ((6, f.show p.id)
          ∷ (20, p.name)
          ∷ (15, debug_type p.program_type)
          ∷ (10, yes_no p.attached)
          ∷ [])
        (or_dash p.attach_point)

  abbrev program_lines : List ProgramInfo → List Line
  unfolding program_row row repeat
  program_lines [] =
      out "No programs loaded" ∷ out "\n💡 Load a program with: ebpf-assist load <program.o>" ∷ []
  program_lines (p ∷ ps) =
      out (row ((6, "ID") ∷ (20, "NAME") ∷ (15, "TYPE") ∷ (10, "ATTACHED") ∷ []) "TARGET")
      ∷ out (repeat 70 "-")
      ∷ map (λ q. out (program_row q)) (p ∷ ps)

  unfoldable pub list : (json_output : Bool) → Response → Run
  unfolding report_error program_lines debug_type
  list json_output (Response.programs ps) =
      prints_either json_output (obj (("programs", arr (map program_json ps)) ∷ []))
        (program_lines ps)
  list json_output (Response.error message code) = report_error json_output failure message code
  list json_output _ = unexpected
