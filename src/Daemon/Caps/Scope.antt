-- ===== src/Daemon/Caps/Scope.antt =====
-- `with_caps` runs its operation with the capabilities raised, and leaves none of them raised.
use ebpf_assist.Prelude.{
  String, Bool, true, false, List, [], ◌∷◌, ok, err, if◌then◌else◌, ◌≡◌, refl, ◌≢◌, sym, ap, subst,
  ◌∙◌, All, arith, Bool-cases, inl, inr,
}
use ebpf_assist.Daemon.Host.{Host, CapState, CapLaws}
use ebpf_assist.Daemon.Io.{Io, context_of, bind_at}
use ebpf_assist.Daemon.Caps.{raise_loop, raise_caps, drop_loop, drop_caps, drop_guard, with_caps}

module _ (h : Host) (laws : CapLaws h) where
  open h use {World, Cap, CapSet, has, add, drop, get_current, set_current}

  -- `c` is one of `cs`.
  abbrev pub listed : Cap → List Cap → Bool
  listed c [] = false
  listed c (d ∷ ds) = elim (laws.cap_discrete d c) [ yes _ ↦ true | no _ ↦ listed c ds ]

  abbrev pub IsWithin : CapState CapSet → Type 0
  IsWithin s = (c : Cap) → has s.effective c ≡ true → has s.permitted c ≡ true

  -- One round of each loop.
  abbrev raised : Cap → CapState CapSet → CapState CapSet
  raised c s = record { permitted = s.permitted; effective = add s.effective c }

  abbrev dropped : Cap → CapState CapSet → CapState CapSet
  dropped c s = record { permitted = s.permitted; effective = drop s.effective c }

  has-add_mono : (s : CapSet) (c d : Cap) → has s d ≡ true → has (add s c) d ≡ true
  has-add_mono s c d e = elim (laws.cap_discrete c d) [
    | yes same ↦ ground (arith, laws.has-add_self s c)
    | no other ↦ laws.has-add_ne s c d other ∙ e
  ]

  has-add_only : (s : CapSet) (c d : Cap) → has (add s c) d ≡ true → c ≢ d → has s d ≡ true
  has-add_only s c d e other = sym (laws.has-add_ne s c d other) ∙ e

  raise_loop-permitted :
      (cs : List Cap) (s t : CapState CapSet) → raise_loop h cs s ≡ ok t → t.permitted ≡ s.permitted
  unfolding raise_loop
  raise_loop-permitted [] s t e = ground arith
  raise_loop-permitted (c ∷ cs) s t e = ground (arith, raise_loop-permitted cs (raised c s) t)

  raise_loop_mono :
      (cs : List Cap) (s t : CapState CapSet) (d : Cap)
      → raise_loop h cs s ≡ ok t
      → has s.effective d ≡ true
      → has t.effective d ≡ true
  unfolding raise_loop
  raise_loop_mono [] s t d e p = ground arith
  raise_loop_mono (c ∷ cs) s t d e p =
      ground (arith, raise_loop_mono cs (raised c s) t d, has-add_mono s.effective c d p)

  raise_loop_raises :
      (cs : List Cap) (s t : CapState CapSet) (d : Cap)
      → raise_loop h cs s ≡ ok t
      → listed d cs ≡ true
      → has t.effective d ≡ true
  unfolding raise_loop
  raise_loop_raises [] s t d e p = cc
  raise_loop_raises (c ∷ cs) s t d e p = ground (
    arith,
    raise_loop_mono cs (raised c s) t d,
    raise_loop_raises cs (raised c s) t d,
    laws.has-add_self s.effective c,
  )

  raised-IsWithin :
      (c : Cap) (s : CapState CapSet)
      → has s.permitted c ≡ true
      → IsWithin s
      → IsWithin (raised c s)
  raised-IsWithin c s may within d p = elim (laws.cap_discrete c d) [
    | yes same ↦ ground arith
    | no other ↦ within d (has-add_only s.effective c d p other)
  ]

  raise_loop-IsWithin :
      (cs : List Cap) (s t : CapState CapSet) → raise_loop h cs s ≡ ok t → IsWithin s → IsWithin t
  unfolding raise_loop
  raise_loop-IsWithin [] s t e within = let same : s ≡ t = cc in subst IsWithin same within
  raise_loop-IsWithin (c ∷ cs) s t e within = elim (Bool-cases (has s.permitted c)) [
    | inl may ↦ raise_loop-IsWithin cs (raised c s) t (rw may at e) (raised-IsWithin c s may within)
    | inr may_not ↦ let refused = rw may_not at e in cc
  ]

  raise_loop_other :
      (cs : List Cap) (s t : CapState CapSet) (d : Cap)
      → raise_loop h cs s ≡ ok t
      → listed d cs ≡ false
      → has t.effective d ≡ has s.effective d
  unfolding raise_loop
  raise_loop_other [] s t d e p = ground arith
  raise_loop_other (c ∷ cs) s t d e p =
      ground (arith, raise_loop_other cs (raised c s) t d, laws.has-add_ne s.effective c d)

  raise_loop_refuses :
      (cs : List Cap) (s : CapState CapSet) (d : Cap)
      → listed d cs ≡ true
      → has s.permitted d ≡ false
      → (message : String) × (raise_loop h cs s ≡ err message)
  unfolding raise_loop
  raise_loop_refuses [] s d p q = cc
  raise_loop_refuses (c ∷ cs) s d p q = elim (Bool-cases (has s.permitted c)) [
    | inl may ↦ rw may (raise_loop_refuses cs (raised c s) d (ground arith) q)
    | inr may_not ↦ rw may_not (_, refl)
  ]

  raise_loop_total :
      (cs : List Cap) (s : CapState CapSet)
      → All (λ c. has s.permitted c ≡ true) cs
      → (t : CapState CapSet) × (raise_loop h cs s ≡ ok t)
  unfolding raise_loop
  raise_loop_total [] s p = (s, refl)
  raise_loop_total (c ∷ cs) s (p, q) = rw p (raise_loop_total cs (raised c s) q)

  drop_loop-permitted :
      (cs : List Cap) (s : CapState CapSet) → (drop_loop h cs s).permitted ≡ s.permitted
  unfolding drop_loop
  drop_loop-permitted [] s = refl
  drop_loop-permitted (c ∷ cs) s = drop_loop-permitted cs (dropped c s)

  -- Dropping clears the listed capabilities and no other.
  drop_loop_lem :
      (cs : List Cap) (s : CapState CapSet) (d : Cap)
      → has (drop_loop h cs s).effective d ≡ (if listed d cs then false else has s.effective d)
  unfolding drop_loop
  drop_loop_lem [] s d = refl
  drop_loop_lem (c ∷ cs) s d = ground (
    arith,
    drop_loop_lem cs (dropped c s) d,
    laws.has-drop_self s.effective c,
    laws.has-drop_ne s.effective c d,
  )

  drop_loop-IsWithin :
      (cs : List Cap) (s : CapState CapSet) → IsWithin s → IsWithin (drop_loop h cs s)
  drop_loop-IsWithin cs s within d p =
      rw (drop_loop-permitted cs s) (within d (ground (arith, drop_loop_lem cs s d)))

  raise_caps_lem :
      (cs : List Cap) (w : World) (s t : CapState CapSet)
      → (get_current w).1 ≡ ok s
      → raise_loop h cs s ≡ ok t
      → (set_current t w).1 ≡ ok tt
      → raise_caps h cs w ≡ ((set_current t w).0, ok tt)
  unfolding raise_caps
  raise_caps_lem cs w s t reads loops sets = simp (reads, laws.get_keeps w, loops, sets)

  drop_caps_lem :
      (cs : List Cap) (w : World) (s : CapState CapSet)
      → (get_current w).1 ≡ ok s
      → drop_guard h cs w ≡ (set_current (drop_loop h cs s) w).0
  unfolding drop_guard drop_caps
  drop_caps_lem cs w s reads =
      rw (reads, drop_guard, drop_caps, context_of, bind_at) (simp (laws.get_keeps w))

  -- What a granted `with_caps` does: `f` runs once, in a world where `during` is in force.
  pub record Scoped {A : Type 0} (caps : List Cap) (f : Io World A) (w : World)
      (before : CapState CapSet) : Type 0 where
    pub inside : World
    pub during : CapState CapSet
    pub after : CapState CapSet
    pub reads_during : (get_current inside).1 ≡ ok during
    pub raised_during : (d : Cap) → listed d caps ≡ true → has during.effective d ≡ true
    pub others_during :
        (d : Cap) → listed d caps ≡ false → has during.effective d ≡ has before.effective d
    pub result : (with_caps h caps f w).1 ≡ (f inside).1
    pub reads_after : (get_current (with_caps h caps f w).0).1 ≡ ok after
    pub permitted_after : after.permitted ≡ before.permitted
    pub dropped_after :
        (d : Cap)
        → has after.effective d ≡ (if listed d caps then false else has before.effective d)

  -- If each of the capabilities is permitted and `f` leaves the process's capabilities alone, then
  -- `f` runs with them effective and no other capability changed, its result is returned, and
  -- afterwards none of them is effective, the others are as before, and the permitted set is kept.
  pub with_caps-Scoped :
      {A : Type 0} (caps : List Cap) (f : Io World A) (w : World) (s : CapState CapSet)
      → (get_current w).1 ≡ ok s
      → All (λ c. has s.permitted c ≡ true) caps
      → ((v : World) → (get_current (f v).0).1 ≡ (get_current v).1)
      → Scoped caps f w s
  unfolding with_caps
  with_caps-Scoped caps f w s reads may keeps =
      let (t, loops) = raise_loop_total caps s may in
      let within = raise_loop-IsWithin caps s t loops (λ c. laws.effective_permitted w s c reads) in
      let (sets, reads_t) =
        laws.set_accepts w s t reads (raise_loop-permitted caps s t loops) within in
      let v = (set_current t w).0 in
      let runs : with_caps h caps f w ≡ (drop_guard h caps (f v).0, (f v).1) =
        rw (raise_caps_lem caps w s t reads loops sets) in
      let reads_f : (get_current (f v).0).1 ≡ ok t = keeps v ∙ reads_t in
      let u = drop_loop h caps t in
      let (sets_u, reads_u) =
        laws.set_accepts (f v).0 t u reads_f (drop_loop-permitted caps t)
          (drop_loop-IsWithin caps t within) in
      record {
        inside = v;
        during = t;
        after = u;
        reads_during = reads_t;
        raised_during = λ d. raise_loop_raises caps s t d loops;
        others_during = λ d. raise_loop_other caps s t d loops;
        result = rw runs;
        reads_after =
            ap (λ x. (get_current x).1) (ap (λ p. p.0) runs ∙ drop_caps_lem caps (f v).0 t reads_f)
            ∙ reads_u;
        permitted_after = drop_loop-permitted caps t ∙ raise_loop-permitted caps s t loops;
        dropped_after =
            λ d. ground (arith, drop_loop_lem caps t d, raise_loop_other caps s t d loops);
      }

  -- If one of the capabilities is not permitted, `with_caps` fails, `f` does not run, and nothing
  -- outside has changed.
  pub with_caps_refused :
      {A : Type 0} (caps : List Cap) (f : Io World A) (w : World) (s : CapState CapSet) (d : Cap)
      → (get_current w).1 ≡ ok s
      → listed d caps ≡ true
      → has s.permitted d ≡ false
      → (message : String) × (with_caps h caps f w ≡ (w, err message))
  unfolding with_caps
  with_caps_refused caps f w s d reads asked may_not =
      let (message, refuses) = raise_loop_refuses caps s d asked may_not in
      (message, simp (reads, laws.get_keeps w, refuses))
