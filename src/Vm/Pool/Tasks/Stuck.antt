-- ===== src/Vm/Pool/Tasks/Stuck.antt =====
-- Two schedules of the pool that go wrong: one that never ends, and one that goes above the limit.
use ebpf_assist.Prelude.{
  arith, ℕ, suc, false, some, Bool-cases, ◌≡◌, inl, inr, refl, nat_eq, nat_eq_iff,
}
use ebpf_assist.Vm.Pool.Tasks.{
  created, room, check, miss, Shared, Pc, Move, Tasks, Step, Run, turn, done, then_step, update,
  at_rest, idle, acquiring, popped, tallying, call_acquire, created, insert, room, check, miss,
  call_stats, pop, hand_over, read, tally,
}
use ebpf_assist.Vm.Pool.Tasks.Deadlock.{Run-AllOwn}
use ebpf_assist.Vm.Pool.Tasks.Locks.{AllOwn, Step-AllOwn, Move-Same, nat_eq-ne}

-- Task 0 has taken a warm VM and waits, and task 1 holds the active VMs' lock for `stats`.
abbrev pub IsBlocked : Tasks → Type 0
IsBlocked s =
    (s.shared.active_lock ≡ some 1)
    × (s.shared.warm_lock ≡ some 0)
    × (s.pc 0 ≡ popped)
    × (s.pc 1 ≡ tallying)

module _ (max_total max_warm : ℕ) where
  popped_waits :
      {i k : ℕ} {p q : Shared} {a b : Pc}
      → Move max_total max_warm i p a q b
      → a ≡ popped
      → p.active_lock ≡ some k
      → ⊥
  popped_waits (hand_over free) here held = cc
  popped_waits _ here held = cc

  tallying_waits :
      {i k : ℕ} {p q : Shared} {a b : Pc}
      → Move max_total max_warm i p a q b
      → a ≡ tallying
      → p.warm_lock ≡ some k
      → ⊥
  tallying_waits (tally free) here held = cc
  tallying_waits _ here held = cc

  -- A step of another task than the two.
  other_step :
      (s : Tasks) (i : ℕ) {p : Shared} {b : Pc}
      → Move max_total max_warm i s.shared (s.pc i) p b
      → AllOwn s
      → IsBlocked s
      → nat_eq 0 i ≡ false
      → nat_eq 1 i ≡ false
      → IsBlocked (record { shared = p; pc = update s.pc i b })
  other_step s i mv all (active_held, warm_held, at_popped, at_tallying) not_0 not_1 =
      let same_0 = Move-Same mv (all i) (nat_eq-ne 0 i not_0) in
      let same_1 = Move-Same mv (all i) (nat_eq-ne 1 i not_1) in
      (same_1.0.1 active_held, same_0.1.1 warm_held, rw not_0 at_popped, rw not_1 at_tallying)

  Step-IsBlocked :
      {s t : Tasks} → Step max_total max_warm s t → AllOwn s → IsBlocked s → IsBlocked t
  Step-IsBlocked {s} (turn i {p} {b} mv) all (active_held, warm_held, at_popped, at_tallying) =
      elim (Bool-cases (nat_eq 0 i)) [
        | inl is_0 ↦ absurd (popped_waits mv (let same = (nat_eq_iff 0 i).0 is_0 in cc) active_held)
        | inr not_0 ↦ elim (Bool-cases (nat_eq 1 i)) [
          | inl is_1 ↦
              absurd (tallying_waits mv (let same = (nat_eq_iff 1 i).0 is_1 in cc) warm_held)
          | inr not_1 ↦
              other_step s i mv all (active_held, warm_held, at_popped, at_tallying) not_0 not_1
        ]
      ]

  Run-IsBlocked :
      {s t : Tasks} → Run max_total max_warm s t → AllOwn s → IsBlocked s → AllOwn t × IsBlocked t
  Run-IsBlocked done all blocked = (all, blocked)
  Run-IsBlocked (then_step before st) all blocked =
      let (all', blocked') = Run-IsBlocked before all blocked in
      (Step-AllOwn st all', Step-IsBlocked st all' blocked')

  -- The state after task 0 has called `acquire` and taken a VM, and task 1 has called `stats` and
  -- taken the active VMs' lock.
  unfoldable pub crossing : (active warm : ℕ) → Tasks
  crossing active warm = record {
    shared = record { active_lock = some 1; warm_lock = some 0; active = active; warm = warm };
    pc = update (update (update (update (λ _. idle) 0 acquiring) 1 Pc.reading) 0 popped) 1 tallying;
  }

  crossing_run :
      (active warm : ℕ) → Run max_total max_warm (at_rest active (suc warm)) (crossing active warm)
  unfolding crossing
  crossing_run active warm =
      then_step
        (then_step (then_step (then_step done (turn 0 call_acquire)) (turn 1 call_stats))
          (turn 0 (pop warm refl refl)))
        (turn 1 (read refl))

  -- A call of `acquire` and a call of `stats` can block each other for good. A manager at rest with
  -- a warm VM reaches a state that, whatever the tasks do from then on, keeps both calls waiting
  -- and both locks taken.
  pub acquire-stats_deadlock :
      (active warm : ℕ) (t : Tasks)
      → Run max_total max_warm (crossing active warm) t
      → Run max_total max_warm (at_rest active (suc warm)) (crossing active warm) × IsBlocked t
  unfolding crossing
  acquire-stats_deadlock active warm t after = (
    crossing_run active warm,
    (Run-IsBlocked after
        (Run-AllOwn max_total max_warm active (suc warm) (crossing_run active warm))
        (refl, refl, refl, refl)).1,
  )

infixl 4 ◌then◌
abbrev ◌then◌ :
    {max_total max_warm : ℕ} {s t u : Tasks}
    → Run max_total max_warm s t
    → Step max_total max_warm t u
    → Run max_total max_warm s u
before then st = then_step before st

-- Two calls of `acquire` that run at once, with room for one VM and none of them warm, can both pass
-- the check of the limit before either of them adds its VM: both return, and the active VMs are one
-- more than `max_total`.
pub acquires-above_limit :
    (n max_warm : ℕ)
    → (s : Tasks) × Run (suc n) max_warm (at_rest n 0) s
      × (s.shared.active ≡ suc (suc n))
      × (s.pc 0 ≡ idle)
      × (s.pc 1 ≡ idle)
acquires-above_limit n max_warm = (
  _,
  done
      then turn 0 call_acquire
      then turn 1 call_acquire
      then turn 0 (miss refl refl)
      then turn 0 (check refl)
      then turn 0 (room refl (omega arith))
      then turn 1 (miss refl refl)
      then turn 1 (check refl)
      then turn 1 (room refl (omega arith))
      then turn 0 created
      then turn 1 created
      then turn 0 (insert refl)
      then turn 1 (insert refl),
  refl,
  refl,
  refl,
)
