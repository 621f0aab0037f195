-- ===== src/Vm/Pool/Tasks/Locks.antt =====
-- Which task holds which lock of the pool.
use ebpf_assist.Prelude.{
  ℕ, Bool, true, false, some, ◌≡◌, ◌≢◌, ◌↔◌, arith, Bool-cases, inl, inr, nat_eq, nat_eq_iff,
}
use ebpf_assist.Vm.Pool.Tasks.{
  Shared, Pc, Move, Tasks, Step, turn, popped, counting, tallying, inside, call_acquire, pop,
  hand_over, check, exhausted, room, read, tally, enter, leave,
}

abbrev pub holds_active : Pc → Bool
holds_active counting = true
holds_active tallying = true
holds_active inside = true
holds_active _ = false

abbrev pub holds_warm : Pc → Bool
holds_warm popped = true
holds_warm _ = false

-- Task `i` is recorded as the holder of a lock where it holds it.
abbrev pub Owns : ℕ → Shared → Pc → Type 0
Owns i p a =
    ((p.active_lock ≡ some i) ↔ (holds_active a ≡ true))
    × ((p.warm_lock ≡ some i) ↔ (holds_warm a ≡ true))

-- What another task sees of a step.
abbrev Same : (k : ℕ) (p q : Shared) → Type 0
Same k p q =
    ((q.active_lock ≡ some k) ↔ (p.active_lock ≡ some k))
    × ((q.warm_lock ≡ some k) ↔ (p.warm_lock ≡ some k))

-- Every task is recorded at the locks that it holds, and no other one is.
abbrev pub AllOwn : Tasks → Type 0
AllOwn s = (k : ℕ) → Owns k s.shared (s.pc k)

transfer : (k : ℕ) (p q : Shared) (a : Pc) → Same k p q → Owns k p a → Owns k q a
transfer k p q a same own = (
  (λ h. own.0.0 (same.0.0 h), λ h. same.0.1 (own.0.1 h)),
  (λ h. own.1.0 (same.1.0 h), λ h. same.1.1 (own.1.1 h)),
)

pub nat_eq-ne : (k j : ℕ) → nat_eq k j ≡ false → some j ≢ some k
nat_eq-ne k j different same = let equal : k ≡ j = cc in let found = (nat_eq_iff k j).1 equal in cc

module _ {max_total max_warm i : ℕ} where
  Move-Owns :
      {p q : Shared} {a b : Pc} → Move max_total max_warm i p a q b → Owns i p a → Owns i q b
  Move-Owns call_acquire own = own
  Move-Owns _ own = grind arith

  pub Move-Same :
      {p q : Shared} {a b : Pc} {k : ℕ}
      → Move max_total max_warm i p a q b
      → Owns i p a
      → some i ≢ some k
      → Same k p q
  Move-Same (pop n free some_warm) own other = grind arith
  Move-Same (hand_over free) own other = grind arith
  Move-Same (check free) own other = grind arith
  Move-Same (exhausted free full) own other = grind arith
  Move-Same (room free less) own other = grind arith
  Move-Same (read free) own other = grind arith
  Move-Same (tally free) own other = grind arith
  Move-Same (enter free) own other = grind arith
  Move-Same leave own other = grind arith
  Move-Same _ own other = ((λ h. h, λ h. h), (λ h. h, λ h. h))

module _ {max_total max_warm : ℕ} where
  pub Step-AllOwn : {s t : Tasks} → Step max_total max_warm s t → AllOwn s → AllOwn t
  Step-AllOwn {s} (turn j {p} {b} mv) all k = elim (Bool-cases (nat_eq k j)) [
    | inl same ↦ let equal = (nat_eq_iff k j).0 same in rw (same, equal) (Move-Owns mv (all j))
    | inr other ↦
        rw other
          (transfer k s.shared p (s.pc k) (Move-Same mv (all j) (nat_eq-ne k j other)) (all k))
  ]
