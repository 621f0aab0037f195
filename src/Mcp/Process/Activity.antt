-- ===== src/Mcp/Process/Activity.antt =====
-- crates/ebpf-assist-mcp/src/tools.rs: the tools that run `trigger` and `output trace` of the command
-- line client.
use ebpf_assist.Prelude.{not, ◌||◌, String, ◌<>◌, List, [], ◌∷◌, if◌then◌else◌, str_eq, ok, err}
use ebpf_assist.Json.{Json}
use ebpf_assist.Daemon.Io.{Io, lift, pure, ◌>>=◌}
use ebpf_assist.Mcp.{Outside, Output}
use ebpf_assist.Mcp.Args.{TriggerArgs, TraceArgs, default_trace}
use ebpf_assist.Mcp.Protocol.{ToolCallResult, text, failure}
use ebpf_assist.Mcp.Process.{World, run_cli, both}

unfoldable pub trigger_result : TriggerArgs → Output → ToolCallResult
unfolding text failure
trigger_result a out =
    if out.is_success
    then text ("Triggered " <> (a.category <> (" " <> (a.operation <> ("\n\n" <> both out)))))
    else failure ("Trigger failed:\n" <> (out.stdout <> ("\n" <> out.stderr)))

unfoldable pub trace_result : Output → ToolCallResult
unfolding text failure
trace_result out =
    if out.is_success || not (str_eq out.stdout "")
    then text (both out)
    else failure ("Failed to read trace_pipe. You may need root access.\n" <> out.stderr)

module _ (o : Outside) where
  unfoldable pub tool_trigger : Json → Io (World o) ToolCallResult
  unfolding run_cli trigger_result
  tool_trigger args = lift (o.decoders.trigger args) >>= λ a.
      run_cli o "trigger" ("trigger" ∷ a.category ∷ a.operation ∷ a.args) >>= λ out.
      pure (trigger_result a out)

  -- `from_value(args).unwrap_or_default()`
  unfoldable pub trace_args : Json → TraceArgs
  trace_args args = elim (o.decoders.trace args) [ ok a ↦ a | err e ↦ default_trace ]

  abbrev pub trace_command : TraceArgs → List String
  trace_command a =
      "output" ∷ "trace" ∷ "--lines" ∷ o.show a.lines ∷ "--timeout" ∷ o.show a.timeout ∷ []

  unfoldable pub tool_trace : Json → Io (World o) ToolCallResult
  unfolding run_cli trace_result trace_args
  tool_trace args =
      run_cli o "output trace" (trace_command (trace_args args)) >>= λ out. pure (trace_result out)
