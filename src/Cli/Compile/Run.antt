-- ===== src/Cli/Compile/Run.antt =====
-- crates/ebpf-assist/src/main.rs: the commands `compile` and `new`.
use ebpf_assist.Prelude.{
  Bool, true, false, not, String, ◌<>◌, List, [], ◌∷◌, map, Option, none, some, Result, ok, err, ℕ,
}
use ebpf_assist.Json.{Json, obj, bool, string, strings}
use ebpf_assist.Cli.Output.{Run, out, doc, exit_failure, prints_either, bail}
use ebpf_assist.Cli.Compile.{
  Toolchain, CompileOptions, CompileResult, default_options, parse_define, compile, template_of,
}
use ebpf_assist.Cli.Compile.Templates.{
  TemplateType, kprobe, kretprobe, tracepoint, xdp, raw_tracepoint, generate_template,
}

-- The JSON document of a compilation that succeeded.
abbrev pub compile_document : CompileResult → Json
compile_document result = obj (
    ("success", bool true)
    ∷ ("output", string result.output_path)
    ∷ ("warnings", strings result.warnings)
    ∷ [])

abbrev compile_run : (json_output : Bool) (source : String) → Result String CompileResult → Run
compile_run json_output source (ok result) = prints_either json_output (compile_document result) (
    out ("Compiled: " <> (source <> (" -> " <> result.output_path)))
    ∷ map (λ w. out ("  Warning: " <> w)) result.warnings)
compile_run true source (err e) = record {
  lines = doc (obj (("success", bool false) ∷ ("error", string e) ∷ [])) ∷ [];
  ended = exit_failure;
}
compile_run false source (err e) = bail e

unfoldable pub options_of :
    (includes defines : List String) (no_btf : Bool) (opt_level : ℕ) → CompileOptions
unfolding default_options parse_define
options_of includes defines no_btf opt_level = record default_options {
  includes = includes;
  defines = map parse_define defines;
  btf = not no_btf;
  opt_level = opt_level;
}

-- The derived `Debug` of `TemplateType`
unfoldable pub debug_template : TemplateType → String
debug_template kprobe = "Kprobe"
debug_template kretprobe = "Kretprobe"
debug_template tracepoint = "Tracepoint"
debug_template xdp = "Xdp"
debug_template raw_tracepoint = "RawTracepoint"

abbrev or_here : Option String → String
or_here none = "."
or_here (some dir) = dir

module _ (t : Toolchain) where
  open t use {World}

  unfoldable pub run_compile :
      (json_output : Bool) (source : String) (output : Option String)
      → CompileOptions
      → World
      → World × Run
  unfolding compile
  run_compile json_output source output options w =
      let (w', result) = compile t source output options w in
      (w', compile_run json_output source result)

  abbrev created : (json_output : Bool) (name path : String) → TemplateType → Run
  unfolding debug_template
  created json_output name path template =
      prints_either json_output
        (obj (
          ("success", bool true)
          ∷ ("path", string path)
          ∷ ("template", string (debug_template template))
          ∷ ("name", string name)
          ∷ []))
        (out ("Created: " <> path)
          ∷ out ("  Template: " <> debug_template template)
          ∷ out "  Next steps:"
          ∷ out ("    1. Edit " <> (path <> " as needed"))
          ∷ out ("    2. Compile: ebpf-assist compile " <> path)
          ∷ out ("    3. Load: ebpf-assist load " <> (name <> ".o"))
          ∷ [])

  abbrev written :
      (json_output : Bool) (name path : String)
      → TemplateType
      → World × Result String (Unit {0})
      → World × Run
  unfolding created
  written json_output name path template (w, ok _) = (w, created json_output name path template)
  written json_output name path template (w, err e) = (w, bail e)

  abbrev new_from :
      (json_output : Bool) (name : String) (target output_dir : Option String)
      → Result String TemplateType
      → World
      → World × Run
  unfolding written generate_template
  new_from json_output name target output_dir (ok template) w =
      let path = t.join (or_here output_dir) (name <> ".c") in
      written json_output name path template
        (t.write path (generate_template template name target) w)
  new_from json_output name target output_dir (err e) w = (w, bail e)

  unfoldable pub run_new :
      (json_output : Bool) (template name : String) (target output_dir : Option String)
      → World
      → World × Run
  unfolding new_from template_of
  run_new json_output template name target output_dir =
      new_from json_output name target output_dir (template_of t template)
