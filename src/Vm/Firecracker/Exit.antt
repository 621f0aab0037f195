-- ===== src/Vm/Firecracker/Exit.antt =====
-- `wait_for_exit` comes to an end.
use ebpf_assist.Prelude.{
  ℕ, zero, suc, ◌+◌, ◌-◌, ◌*◌, ◌≤◌, Bool-cases, inl, inr, ltb, Option, none, some, ◌≢◌, arith,
}
use ebpf_assist.Vm.Crash.{CrashInfo}
use ebpf_assist.Vm.Firecracker.{Os, FirecrackerInstance}
use ebpf_assist.Vm.Firecracker.Life.{check_crash, wait_round, wait_rounds, wait_for_exit}

module _ (o : Os) (i : FirecrackerInstance o) where
  open o use {World}

  -- A round of the loop that finds the process alive, and the rounds that are left.
  round-some :
      (n start : ℕ) (r : World × Option CrashInfo)
      → (o.now r.0 ≤ 10000 + start → (wait_rounds o n i start (o.sleep 100 r.0)).1 ≢ none)
      → (wait_round o i start r λ w. wait_rounds o n i start w).1 ≢ none
  round-some n start (w, some info) more = λ e. cc
  round-some n start (w, none) more = elim (Bool-cases (ltb 10000 (o.now w - start))) [
    | inl late ↦ rw late λ e. cc
    | inr early ↦ rw early (more (ground arith))
  ]

  -- `left` rounds are enough for the time that is left.
  rounds-some :
      (n start : ℕ) (w : World)
      → ((w : World) → o.now w + 100 ≤ o.now (o.sleep 100 w))
      → ((w : World) → o.now w ≤ o.now (check_crash o i w).0)
      → start + 10100 ≤ o.now w + 100 * n
      → (wait_rounds o (suc n) i start w).1 ≢ none
  unfolding wait_rounds
  rounds-some zero start w sleeps checks time =
      round-some zero start (check_crash o i w) λ early. absurd (omega (arith, checks w))
  rounds-some (suc n) start w sleeps checks time =
      round-some (suc n) start (check_crash o i w) λ early.
        rounds-some n start (o.sleep 100 (check_crash o i w).0) sleeps checks
          (omega (arith, sleeps (check_crash o i w).0, checks w))

  -- Where a sleep of 100 milliseconds takes at least that long and the clock does not go back, 103
  -- rounds of `wait_for_exit` are enough: it returns a description, of the crash or of the kill.
  pub wait_for_exit-some :
      (w : World)
      → ((w : World) → o.now w + 100 ≤ o.now (o.sleep 100 w))
      → ((w : World) → o.now w ≤ o.now (check_crash o i w).0)
      → (wait_for_exit o 103 i w).1 ≢ none
  unfolding wait_for_exit
  wait_for_exit-some w sleeps checks = rounds-some 102 (o.now w) w sleeps checks (omega arith)
