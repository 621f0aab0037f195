-- ===== src/Mcp/Process/Status.antt =====
-- The results of the tools that run a process, by the status of the process.
use ebpf_assist.Prelude.{
  Bool, true, not, ◌||◌, String, none, some, if◌then◌else◌, str_eq, ◌≡◌, arith,
}
use ebpf_assist.Mcp.{Outside, Output}
use ebpf_assist.Mcp.Args.{TriggerArgs}
use ebpf_assist.Mcp.Protocol.{ToolCallResult, text, failure}
use ebpf_assist.Mcp.Process.Programs.{new_result, compile_result, isolated_result}
use ebpf_assist.Mcp.Process.Activity.{trigger_result, trace_result}
use ebpf_assist.Mcp.Process.MicroVms.{init_result, list_result, stop_result}

-- Whether a result is marked as an error.
abbrev pub Marks : (is_good : Bool) → ToolCallResult → Type 0
Marks is_good r = r.is_error ≡ (if is_good then none else some true)

module _ (o : Outside) where
  new-Marks : (name : String) (out : Output) → Marks out.is_success (new_result o name out)
  unfolding new_result text failure
  new-Marks name out = ground arith

  compile-Marks : (out : Output) → Marks out.is_success (compile_result o out)
  unfolding compile_result text failure
  compile-Marks out = ground arith

  isolated-Marks : (out : Output) → Marks out.is_success (isolated_result o out)
  unfolding isolated_result text failure
  isolated-Marks out = ground arith

  init-Marks : (out : Output) → Marks out.is_success (init_result o out)
  unfolding init_result text failure
  init-Marks out = ground arith

  list-Marks : (out : Output) → Marks out.is_success (list_result o out)
  unfolding list_result text failure
  list-Marks out = ground arith

-- The result of every tool that runs the client as a process is marked as an error exactly when
-- the process's status is no success, whether or not its output parses as JSON, but for
-- `ebpf_trace`: there a process that printed something is good whatever its status.
pub results-Marks :
    (o : Outside) (name vm_id : String) (a : TriggerArgs) (out : Output)
    → Marks out.is_success (new_result o name out)
      × Marks out.is_success (compile_result o out)
      × Marks out.is_success (isolated_result o out)
      × Marks out.is_success (init_result o out)
      × Marks out.is_success (list_result o out)
      × Marks out.is_success (stop_result o vm_id out)
      × Marks out.is_success (trigger_result a out)
      × Marks (out.is_success || not (str_eq out.stdout "")) (trace_result out)
unfolding stop_result trigger_result trace_result text failure
results-Marks o name vm_id a out = (
  new-Marks o name out,
  compile-Marks o out,
  isolated-Marks o out,
  init-Marks o out,
  list-Marks o out,
  ground arith,
  ground arith,
  ground arith,
)
