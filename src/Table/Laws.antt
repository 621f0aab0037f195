-- ===== src/Table/Laws.antt =====
-- What a map holds after an insertion, a removal and a `retain`.
use ebpf_assist.Prelude.{
  suc, ◌+◌, ◌≤◌, Bool, true, [], ◌∷◌, none, some, Eq, if◌then◌else◌, ◌≡◌, ◌≢◌, sym, refl, ap, arith,
  Bool-cases, inl, inr,
}
use ebpf_assist.Table.{Table, get, insert, remove, retain, len}

pub beq_refl {ℓ} : {K : Type ℓ} ⦃e : Eq K⦄ (k : K) → e.beq k k ≡ true
beq_refl ⦃e⦄ k = (e.beq_iff k k).1 refl

module _ {ℓ κ} {K : Type ℓ} {V : Type κ} ⦃e : Eq K⦄ where
  pub get-insert :
      (t : Table K V) (k j : K) (v : V)
      → get (insert t k v) j ≡ (if e.beq k j then some v else get t j)
  unfolding get insert
  get-insert [] k j v = refl
  get-insert ((i, w) ∷ t) k j v =
      ground (arith, e.beq_iff i k, e.beq_iff i j, e.beq_iff k j, get-insert t k j v)

  pub get-insert_self : (t : Table K V) (k : K) (v : V) → get (insert t k v) k ≡ some v
  get-insert_self t k v = rw (get-insert t k k v, beq_refl k) refl

  pub get-insert_ne : (t : Table K V) (k j : K) (v : V) → j ≢ k → get (insert t k v) j ≡ get t j
  get-insert_ne t k j v other = elim (Bool-cases (e.beq k j)) [
    | inl same ↦ absurd (other (sym ((e.beq_iff k j).0 same)))
    | inr apart ↦ rw (get-insert t k j v, apart) refl
  ]

  pub get-remove :
      (t : Table K V) (k j : K) → get (remove t k) j ≡ (if e.beq k j then none else get t j)
  unfolding get remove
  get-remove [] k j = ground arith
  get-remove ((i, w) ∷ t) k j =
      ground (arith, e.beq_iff i k, e.beq_iff i j, e.beq_iff k j, get-remove t k j)

  pub get-retain :
      (keep : K → Bool) (t : Table K V) (j : K)
      → get (retain keep t) j ≡ (if keep j then get t j else none)
  unfolding get retain
  get-retain keep [] j = ground arith
  get-retain keep ((i, w) ∷ t) j = elim (Bool-cases (e.beq i j)) [
    | inl same ↦ rw ((e.beq_iff i j).0 same) (ground (arith, get-retain keep t j, beq_refl j))
    | inr other ↦ ground (arith, get-retain keep t j)
  ]

  pub len-insert_le : (t : Table K V) (k : K) (v : V) → len (insert t k v) ≤ len t + 1
  unfolding insert
  len-insert_le [] k v = omega arith
  len-insert_le ((i, w) ∷ t) k v = ground (arith, len-insert_le t k v)

  -- An insertion at a key that the map has replaces a value.
  pub len-insert_there :
      (t : Table K V) (k : K) (u v : V) → get t k ≡ some u → len (insert t k v) ≡ len t
  unfolding get insert
  len-insert_there [] k u v there = cc
  len-insert_there ((i, w) ∷ t) k u v there = elim (Bool-cases (e.beq i k)) [
    | inl same ↦ rw same refl
    | inr other ↦ rw other (ap suc (len-insert_there t k u v (rw other at there)))
  ]

  len-remove_le : (t : Table K V) (k : K) → len (remove t k) ≤ len t
  unfolding remove
  len-remove_le [] k = omega arith
  len-remove_le ((i, w) ∷ t) k = ground (arith, len-remove_le t k)

  pub len-remove : (t : Table K V) (k : K) (u : V) → get t k ≡ some u → len (remove t k) + 1 ≤ len t
  unfolding get remove
  len-remove [] k u there = cc
  len-remove ((i, w) ∷ t) k u there = elim (Bool-cases (e.beq i k)) [
    | inl same ↦ rw same (omega (arith, len-remove_le t k))
    | inr other ↦ rw other (omega (arith, len-remove t k u (rw other at there)))
  ]
