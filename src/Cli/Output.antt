-- ===== src/Cli/Output.antt =====
-- What a command of crates/ebpf-assist prints, and how it ends. A line is the text of one `println!`
-- or `eprintln!`, and a document is a JSON value that `to_string_pretty` prints.
use Prim.Native.String.{count}
use ebpf_assist.Prelude.{ℕ, zero, suc, ◌-◌, Bool, true, false, List, [], ◌∷◌, String, ◌<>◌}
use ebpf_assist.Json.{Json}

pub data Line : Type 0 where
  out error_out : String → Line
  doc : Json → Line

-- The end of a command: `Ok(())`, `std::process::exit(1)`, or an error that `main` returns.
pub data Ended : Type 0 where
  success exit_failure : Ended
  failed : String → Ended

pub record Run : Type 0 where
  pub lines : List Line
  pub ended : Ended

abbrev pub prints : List Line → Run
prints lines = record { lines = lines; ended = Ended.success }

abbrev pub bail : String → Run
bail message = record { lines = []; ended = failed message }

-- The two forms of a success.
abbrev pub prints_either : (json_output : Bool) → Json → List Line → Run
prints_either true document lines = prints (doc document ∷ [])
prints_either false document lines = prints lines

-- `"-".repeat(n)`
unfoldable pub repeat : ℕ → String → String
repeat zero s = ""
repeat (suc n) s = s <> repeat n s

-- `{:<width}`
unfoldable pub pad : (width : ℕ) → String → String
unfolding repeat
pad width s = s <> repeat (width - count s) " "

-- `join(", ")`
unfoldable pub join : String → List String → String
join sep [] = ""
join sep (s ∷ []) = s
join sep (s ∷ t ∷ rest) = s <> (sep <> join sep (t ∷ rest))

-- The columns of a row, with one space between them and the last one unpadded.
unfoldable pub row : List (ℕ × String) → String → String
unfolding pad
row [] last = last
row ((width, s) ∷ cells) last = pad width s <> (" " <> row cells last)
