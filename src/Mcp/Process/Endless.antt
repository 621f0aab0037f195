-- ===== src/Mcp/Process/Endless.antt =====
-- The tool `ebpf_trace` without arguments that it can read, and the command that it runs.
use ebpf_assist.Prelude.{ℕ, String, List, [], ◌∷◌, err, ◌≡◌, inl, refl}
use ebpf_assist.Json.{Json}
use ebpf_assist.Cli.Trace.{waits, read_lines}
use ebpf_assist.Cli.Trace.Limits.{arrived, InTime, still_waits}
use ebpf_assist.Mcp.{Outside}
use ebpf_assist.Mcp.Args.{default_trace}
use ebpf_assist.Mcp.Process.Activity.{trace_args}

untimed : (show : ℕ → String) (lines : List (ℕ × String)) → InTime show 0 0 lines
untimed show [] = tt
untimed show ((elapsed, line) ∷ more) = (inl refl, untimed show more)

trace_args-default :
    (o : Outside) (args : Json) (e : String)
    → o.decoders.trace args ≡ err e
    → trace_args o args ≡ default_trace
unfolding trace_args
trace_args-default o args e refused = rw (trace_args, refused) refl

-- Where the arguments of `ebpf_trace` do not decode, as when there are none, the limits that the tool
-- passes on let the command read for ever: whatever lines have come, and however long that took, it
-- waits for another one.
pub trace_args-waits :
    (o : Outside) (args : Json) (e : String) (lines : List (ℕ × String))
    → o.decoders.trace args ≡ err e
    → (read_lines o.show (trace_args o args).lines (trace_args o args).timeout 0 (arrived lines)).1
      ≡ waits
trace_args-waits o args e lines refused =
    rw (trace_args-default o args e refused)
      (still_waits o.show 0 0 0 lines (untimed o.show lines) (inl refl))
