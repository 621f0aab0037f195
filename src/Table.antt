-- ===== src/Table.antt =====
-- `std::collections::HashMap` as an association list. The order in which a map is iterated is not
-- specified by Rust; the list's order stands for one that the map might choose.
pub mod Laws
use ebpf_assist.Prelude.{
  ℕ, Bool, true, false, List, [], ◌∷◌, Option, none, some, Eq, if◌then◌else◌, map, length,
}

abbrev pub Table {ℓ κ} : Type ℓ → Type κ → Type (ℓ ⊔ κ)
Table K V = List (K × V)

module _ {ℓ κ} {K : Type ℓ} {V : Type κ} ⦃e : Eq K⦄ where
  unfoldable pub get : Table K V → K → Option V
  get [] k = none
  get ((j, v) ∷ t) k = if e.beq j k then some v else get t k

  unfoldable pub insert : Table K V → K → V → Table K V
  insert [] k v = (k, v) ∷ []
  insert ((j, w) ∷ t) k v = if e.beq j k then (k, v) ∷ t else (j, w) ∷ insert t k v

  unfoldable pub remove : Table K V → K → Table K V
  remove [] k = []
  remove ((j, v) ∷ t) k = if e.beq j k then remove t k else (j, v) ∷ remove t k

module _ {ℓ κ} {K : Type ℓ} {V : Type κ} where
  -- `retain`, by a test on the key
  unfoldable pub retain : (K → Bool) → Table K V → Table K V
  retain keep [] = []
  retain keep ((j, v) ∷ t) = if keep j then (j, v) ∷ retain keep t else retain keep t

  abbrev pub values : Table K V → List V
  values t = map (λ r. r.1) t

  abbrev pub keys : Table K V → List K
  keys t = map (λ r. r.0) t

  abbrev pub len : Table K V → ℕ
  len t = length t
