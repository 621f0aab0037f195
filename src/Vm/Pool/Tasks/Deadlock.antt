-- ===== src/Vm/Pool/Tasks/Deadlock.antt =====
-- When calls of the pool block each other.
use ebpf_assist.Prelude.{
  ℕ, zero, suc, ◌+◌, true, none, Option-cases, ◌≡◌, ◌≢◌, ◌⊎◌, inl, inr, refl, arith,
}
use native.Mathlib.Decide.{dec_lt}
use ebpf_assist.Vm.Pool.Tasks.{
  Shared, Pc, Move, Tasks, Run, done, then_step, at_rest, idle, acquiring, popped, checking,
  counting, creating, inserting, reading, tallying, entering, inside, removing, reusing, resetting,
  pushing, pop, miss, hand_over, check, exhausted, room, created, insert, read, tally, no_vm, leave,
  not_there, reuse, destroy, reset, push,
}
use ebpf_assist.Vm.Pool.Tasks.Locks.{holds_active, holds_warm, AllOwn, Step-AllOwn}

holds_warm-popped : (a : Pc) → holds_warm a ≡ true → a ≡ popped
holds_warm-popped popped held = refl
holds_warm-popped _ held = cc

-- One task has taken a warm VM and waits for the active ones, and another holds these and waits
-- for the warm pool.
abbrev pub Crossed : Tasks → Type 0
Crossed s = (j : ℕ) × (k : ℕ) × (s.pc j ≡ popped) × ((s.pc k ≡ counting) ⊎ (s.pc k ≡ tallying))

module _ (max_total max_warm : ℕ) where
  pub Run-AllOwn :
      (active warm : ℕ) {s : Tasks} → Run max_total max_warm (at_rest active warm) s → AllOwn s
  Run-AllOwn active warm done = λ k. ((λ e. cc, λ e. cc), (λ e. cc, λ e. cc))
  Run-AllOwn active warm (then_step before st) = Step-AllOwn st (Run-AllOwn active warm before)

  -- Task `i` has a step to make.
  abbrev CanMove : ℕ → Shared → Pc → Type 0
  CanMove i p a = (q : Shared) × (b : Pc) × Move max_total max_warm i p a q b

  counted : (i : ℕ) (p : Shared) → p.warm_lock ≡ none → CanMove i p counting
  counted i p free = elim (dec_lt (p.active + p.warm) max_total) [
    | yes less ↦ (_, creating, room free less)
    | no full ↦ (_, idle, exhausted free (omega arith))
  ]

  taken :
      (i : ℕ) (p : Shared) (warm : ℕ) → p.warm_lock ≡ none → p.warm ≡ warm → CanMove i p acquiring
  taken i p zero free none_warm = (p, checking, miss free none_warm)
  taken i p (suc n) free some_warm = (_, popped, pop n free some_warm)

  can_move :
      (i : ℕ) (p : Shared) (a : Pc)
      → a ≢ idle
      → p.active_lock ≡ none
      → p.warm_lock ≡ none
      → CanMove i p a
  can_move i p idle busy active_free warm_free = absurd (busy refl)
  can_move i p acquiring busy active_free warm_free = taken i p p.warm warm_free refl
  can_move i p popped busy active_free warm_free = (_, idle, hand_over active_free)
  can_move i p checking busy active_free warm_free = (_, counting, check active_free)
  can_move i p counting busy active_free warm_free = counted i p warm_free
  can_move i p creating busy active_free warm_free = (p, inserting, created)
  can_move i p inserting busy active_free warm_free = (_, idle, insert active_free)
  can_move i p reading busy active_free warm_free = (_, tallying, read active_free)
  can_move i p tallying busy active_free warm_free = (_, idle, tally warm_free)
  can_move i p entering busy active_free warm_free = (p, idle, no_vm active_free)
  can_move i p inside busy active_free warm_free = (_, idle, leave)
  can_move i p removing busy active_free warm_free = (p, idle, not_there active_free)
  can_move i p reusing busy active_free warm_free = elim (dec_lt p.warm max_warm) [
    | yes less ↦ (p, resetting, reuse warm_free less)
    | no full ↦ (p, idle, destroy warm_free (omega arith))
  ]
  can_move i p resetting busy active_free warm_free = (p, pushing, reset)
  can_move i p pushing busy active_free warm_free = (_, idle, push warm_free)

  -- A task in the middle of a call has a step to make.
  abbrev pub SomeMoves : Tasks → Type 0
  SomeMoves s = (j : ℕ) × (s.pc j ≢ idle) × CanMove j s.shared (s.pc j)

  moves_at :
      (s : Tasks) (j : ℕ) (a : Pc) → s.pc j ≡ a → a ≢ idle → CanMove j s.shared a → SomeMoves s
  moves_at s j a here busy can = (j, rw here busy, rw here can)

  -- The holder of the active VMs' lock has a step, or waits for the warm pool.
  holder_moves :
      (s : Tasks) (k : ℕ) (a : Pc)
      → s.pc k ≡ a
      → holds_active a ≡ true
      → SomeMoves s ⊎ ((a ≡ counting) ⊎ (a ≡ tallying))
  holder_moves s k counting here held = inr (inl refl)
  holder_moves s k tallying here held = inr (inr refl)
  holder_moves s k inside here held = inl (moves_at s k inside here (λ e. cc) (_, idle, leave))
  holder_moves s k _ here held = cc

  waiting_moves :
      (s : Tasks) (k : ℕ)
      → s.shared.warm_lock ≡ none
      → (s.pc k ≡ counting) ⊎ (s.pc k ≡ tallying)
      → SomeMoves s
  waiting_moves s k warm_free (inl here) =
      moves_at s k counting here (λ e. cc) (counted k s.shared warm_free)
  waiting_moves s k warm_free (inr here) =
      moves_at s k tallying here (λ e. cc) (_, idle, tally warm_free)

  -- Whatever calls the tasks of a manager make, and in whatever order they run: while a call is
  -- under way, some call has a step to make, or one task holds the warm pool's lock and waits for
  -- the active VMs' while another holds these and waits for the warm pool.
  pub Run-progress :
      (active warm : ℕ) (s : Tasks) (i : ℕ)
      → Run max_total max_warm (at_rest active warm) s
      → s.pc i ≢ idle
      → SomeMoves s ⊎ Crossed s
  Run-progress active warm s i before busy = elim (Option-cases s.shared.active_lock) [
    | inl active_free ↦ elim (Option-cases s.shared.warm_lock) [
      | inl warm_free ↦ inl (i, busy, can_move i s.shared (s.pc i) busy active_free warm_free)
      | inr (j, held) ↦
          let here = holds_warm-popped (s.pc j) ((own j).1.0 held) in
          inl (moves_at s j popped here (λ e. cc) (_, idle, hand_over active_free))
    ]
    | inr (k, held) ↦ elim (holder_moves s k (s.pc k) refl ((own k).0.0 held)) [
      | inl moves ↦ inl moves
      | inr waits ↦ elim (Option-cases s.shared.warm_lock) [
        | inl warm_free ↦ inl (waiting_moves s k warm_free waits)
        | inr (j, taken_by) ↦ inr (j, k, holds_warm-popped (s.pc j) ((own j).1.0 taken_by), waits)
      ]
    ]
  ]
    where
      own : AllOwn s
      own = Run-AllOwn active warm before
