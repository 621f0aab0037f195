-- ===== src/Cli/Trace.antt =====
-- crates/ebpf-assist/src/trigger.rs, `read_trace_pipe`: the command `output trace`. What the pipe
-- gives is the list of its lines, each with the milliseconds from the start to its arrival; after the
-- last of them the next read waits.
pub mod Limits
use ebpf_assist.Prelude.{
  ◌*◌, ℕ, zero, suc, ◌+◌, Bool, true, false, ◌&&◌, String, ◌<>◌, List, [], ◌∷◌, ◌++◌, Option, none,
  some, Result, ok, err, if◌then◌else◌, ltb, leb,
}
use ebpf_assist.Cli.Output.{Line, out, error_out}

-- How the loop is left: it ends after some lines, or it waits for the next one.
pub data Left : Type 0 where
  ended : (lines_read : ℕ) → Left
  waits : Left

-- `show` is the `Display` of a number.
module _ (show : ℕ → String) (max_lines timeout_secs : ℕ) where
  abbrev stop_at : (lines_read : ℕ) → List Line × Left
  stop_at lines_read = ([], ended lines_read)

  abbrev print_first : Line → List Line × Left → List Line × Left
  print_first line (lines, left) = (line ∷ lines, left)

  -- What a line leads to, when the loop goes on with `rest` after it.
  abbrev pub on_line :
      (lines_read : ℕ) → Result String String → (ℕ → List Line × Left) → List Line × Left
  on_line lines_read (ok line) rest = print_first (out line) (
      if ltb 0 max_lines && leb max_lines (suc lines_read)
      then stop_at (suc lines_read)
      else rest (suc lines_read))
  on_line lines_read (err e) rest =
      print_first (error_out ("Error reading trace_pipe: " <> e)) (stop_at lines_read)

  abbrev time_out : (lines_read : ℕ) → List Line × Left
  time_out lines_read = (
    out "---" ∷ out ("Timeout reached (" <> (show timeout_secs <> " seconds)")) ∷ [],
    ended lines_read,
  )

  unfoldable pub read_lines : (lines_read : ℕ) → List (ℕ × Result String String) → List Line × Left
  read_lines lines_read [] = ([], waits)
  read_lines lines_read ((elapsed, line) ∷ more) =
      if ltb 0 timeout_secs && ltb (1000 * timeout_secs) elapsed
      then time_out lines_read
      else on_line lines_read line λ n. read_lines n more

  abbrev limit_text : String
  limit_text = if leb max_lines 0 then "unlimited" else show max_lines

  abbrev summary : List Line × Left → List Line × Left
  summary (lines, ended n) =
      (lines ++ out "---" ∷ out ("Read " <> (show n <> " lines")) ∷ [], ended n)
  summary (lines, waits) = (lines, waits)

  abbrev announced : List Line × Left → List Line × Left
  announced (lines, left) = (
    out (
          "Reading from trace_pipe (timeout: "
          <> (show timeout_secs <> ("s, max lines: " <> (limit_text <> ")..."))))
        ∷ out "---"
        ∷ lines,
    left,
  )

  -- The pipe, if it is there and can be opened.
  unfoldable pub read_trace_pipe :
      (exists : Bool)
      → Result String (List (ℕ × Result String String))
      → Result String (List Line × Left)
  unfolding read_lines
  read_trace_pipe false pipe =
      err
        "trace_pipe not found at /sys/kernel/debug/tracing/trace_pipe. Make sure debugfs is mounted:\n  sudo mount -t debugfs none /sys/kernel/debug"
  read_trace_pipe true (err e) =
      err
        "Failed to open trace_pipe. You may need root or CAP_SYS_ADMIN:\n  sudo ebpf-assist output trace"
  read_trace_pipe true (ok lines) = ok (announced (summary (read_lines 0 lines)))
