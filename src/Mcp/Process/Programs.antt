-- ===== src/Mcp/Process/Programs.antt =====
-- crates/ebpf-assist-mcp/src/tools.rs: the tools that run `new`, `compile` and `load --isolate` of the
-- command line client.
use ebpf_assist.Prelude.{
  ℕ, String, ◌<>◌, List, [], ◌∷◌, ◌++◌, Option, none, some, if◌then◌else◌, str_eq,
}
use ebpf_assist.Json.{Json, get, as_str, as_u64, as_array, read_or}
use ebpf_assist.Daemon.Io.{Io, lift, pure, ◌>>=◌}
use ebpf_assist.Cli.Output.{join}
use ebpf_assist.Mcp.{Outside, Output}
use ebpf_assist.Mcp.Args.{NewArgs, CompileArgs}
use ebpf_assist.Mcp.Protocol.{ToolCallResult, text, failure}
use ebpf_assist.Mcp.Process.{World, run_cli, both, option, str_or}

-- `filter_map(|v| v.as_str())`
abbrev pub all_strings : List Json → List String
all_strings [] = []
all_strings (j ∷ js) = elim (as_str j) [ none ↦ all_strings js | some s ↦ s ∷ all_strings js ]

abbrev array_at : Option Json → Option (List Json)
array_at none = none
array_at (some j) = as_array j

-- `w.iter().filter_map(…).collect().join("\n")`, or nothing if there is no array
abbrev joined : Option (List Json) → String
unfolding join
joined none = ""
joined (some ws) = join "\n" (all_strings ws)

abbrev pub compile_message : (output_path warnings : String) → String
compile_message output_path warnings =
    "Compiled successfully:\n  Output: "
    <> (output_path
        <> ((if str_eq warnings "" then "" else "\n\nWarnings:\n" <> warnings)
            <> ("\n\nNext: ebpf_load(path=\"" <> (output_path <> "\")"))))

module _ (o : Outside) where
  abbrev new_args : NewArgs → List String
  new_args a =
      "new"
      ∷ a.template
      ∷ a.name
      ∷ "--json"
      ∷ (option "--target" a.target ++ option "--output-dir" a.output_dir)

  abbrev new_text : (name template path : String) → String
  new_text name template path =
      "Created eBPF program from "
      <> (template
          <> (" template:\n  Path: "
              <> (path
                  <> ("\n\nNext steps:\n  1. Edit "
                      <> (path
                          <> (" as needed\n  2. Compile: ebpf_compile(source=\""
                              <> (path
                                  <> ("\")\n  3. Load: ebpf_load(path=\""
                                      <> (name <> ".o\")")))))))))

  unfoldable pub new_result : (name : String) → Output → ToolCallResult
  unfolding text failure get
  new_result name out =
      if out.is_success
      then elim (o.parse_value out.stdout) [
        | none ↦ text (both out)
        | some j ↦ text (new_text name (str_or "" j "template") (str_or "" j "path"))
      ]
      else failure (both out)

  unfoldable pub tool_new : Json → Io (World o) ToolCallResult
  unfolding run_cli new_result
  tool_new args = lift (o.decoders.new args) >>= λ a.
      run_cli o "new" (new_args a) >>= λ out. pure (new_result a.name out)

  abbrev number_text : Option ℕ → Option String
  number_text none = none
  number_text (some n) = some (o.show n)

  abbrev compile_args : CompileArgs → List String
  compile_args a =
      "compile"
      ∷ a.source
      ∷ "--json"
      ∷ (option "--output" a.output ++ option "--opt" (number_text a.opt_level))

  unfoldable pub compile_result : Output → ToolCallResult
  unfolding text failure get joined
  compile_result out =
      if out.is_success
      then elim (o.parse_value out.stdout) [
        | none ↦ text (both out)
        | some j ↦
            text (compile_message (str_or "" j "output") (joined (array_at (get j "warnings"))))
      ]
      else elim (o.parse_value out.stdout) [
        | none ↦ failure (both out)
        | some j ↦ failure (str_or "Compilation failed" j "error")
      ]

  unfoldable pub tool_compile : Json → Io (World o) ToolCallResult
  unfolding run_cli compile_result
  tool_compile args = lift (o.decoders.compile args) >>= λ a.
      run_cli o "compile" (compile_args a) >>= λ out. pure (compile_result out)

  abbrev isolated_args : (path : String) (program_name : Option String) → List String
  isolated_args path program_name =
      "load" ∷ path ∷ "--isolate" ∷ "--json" ∷ option "--name" program_name

  -- The literal's line ends swallow the spaces that follow them.
  abbrev isolated_text : (vm_id prog_id name prog_type : String) → String
  isolated_text vm_id prog_id name prog_type =
      "Loaded eBPF program in isolated MicroVM:\n\n🔒 ISOLATED MODE - Safe for risky programs\n\nVM ID:   "
      <> (vm_id
          <> ("\nProg ID: "
              <> (prog_id
                  <> ("\nName:    "
                      <> (name
                          <> ("\nType:    "
                              <> (prog_type
                                  <> ("\n\nThe program is running in a separate kernel.\nAny crashes will NOT affect your host system.\n\nUse ebpf_attach with id="
                                      <> (prog_id
                                          <> (" to attach to a kernel hook.\nUse ebpf_vm_stop with vm_id=\""
                                              <> (vm_id <> "\" to stop the VM.")))))))))))

  unfoldable pub isolated_result : Output → ToolCallResult
  unfolding text failure get
  isolated_result out =
      if out.is_success
      then elim (o.parse_value out.stdout) [
        | none ↦ text (both out)
        | some j ↦ text (
            isolated_text (str_or "unknown" j "vm_id")
              (o.show (read_or 0 as_u64 (get j "program_id"))) (str_or "unknown" j "name")
              (str_or "unknown" j "type"))
      ]
      else elim (o.parse_value out.stdout) [
        | none ↦ failure (both out)
        | some j ↦ failure (str_or (both out) j "error")
      ]

  unfoldable pub tool_load_isolated :
      (path : String) (program_name : Option String) → Io (World o) ToolCallResult
  unfolding run_cli isolated_result
  tool_load_isolated path program_name =
      run_cli o "load --isolate" (isolated_args path program_name) >>= λ out.
      pure (isolated_result out)
