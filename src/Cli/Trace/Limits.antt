-- ===== src/Cli/Trace/Limits.antt =====
-- When the reading of the trace pipe ends, and when it does not.
use ebpf_assist.Prelude.{
  ◌*◌, ℕ, suc, ◌+◌, ◌≤◌, ◌<◌, false, ◌&&◌, String, List, [], ◌∷◌, length, Result, ok, ◌≡◌, ◌⊎◌, inl,
  inr, refl, arith, ltb, leb,
}
use ebpf_assist.Cli.Trace.{waits, read_lines}

-- Lines that arrive without an error.
abbrev pub arrived : List (ℕ × String) → List (ℕ × Result String String)
arrived [] = []
arrived ((elapsed, line) ∷ more) = (elapsed, ok line) ∷ arrived more

module _ (show : ℕ → String) (max_lines timeout_secs : ℕ) where
  -- Each line arrives within the timeout, if there is one.
  abbrev pub InTime : List (ℕ × String) → Type 0
  InTime [] = Unit {0}
  InTime ((elapsed, line) ∷ more) =
      ((timeout_secs ≡ 0) ⊎ (elapsed ≤ 1000 * timeout_secs)) × InTime more

  in_time-test :
      (elapsed : ℕ)
      → (timeout_secs ≡ 0) ⊎ (elapsed ≤ 1000 * timeout_secs)
      → (ltb 0 timeout_secs && ltb (1000 * timeout_secs) elapsed) ≡ false
  in_time-test elapsed (inl none_set) = ground arith
  in_time-test elapsed (inr soon) = ground arith

  below-test :
      (n more : ℕ)
      → (max_lines ≡ 0) ⊎ (n + suc more < max_lines)
      → (ltb 0 max_lines && leb max_lines (suc n)) ≡ false
  below-test n more (inl unlimited) = ground arith
  below-test n more (inr below) = ground arith

  next_below :
      (n more : ℕ)
      → (max_lines ≡ 0) ⊎ (n + suc more < max_lines)
      → (max_lines ≡ 0) ⊎ (suc n + more < max_lines)
  next_below n more (inl unlimited) = inl unlimited
  next_below n more (inr below) = inr (omega arith)

  -- The reading goes on to wait for another line, for however long, where fewer lines have come than
  -- were asked for and none of them came late: the timeout ends it only when a line arrives.
  pub still_waits :
      (n : ℕ) (lines : List (ℕ × String))
      → InTime lines
      → (max_lines ≡ 0) ⊎ (n + length lines < max_lines)
      → (read_lines show max_lines timeout_secs n (arrived lines)).1 ≡ waits
  unfolding read_lines
  still_waits n [] in_time few = refl
  still_waits n ((elapsed, line) ∷ more) (soon, in_time) few =
      rw (in_time-test elapsed soon, below-test n (length more) few)
        (still_waits (suc n) more in_time (next_below n (length more) few))
