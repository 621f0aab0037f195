-- ===== src/Daemon/Loader/Detect.antt =====
-- Which program of an object `load` takes.
use ebpf_assist.Prelude.{
  true, List, [], ◌∷◌, map, String, Option, none, some, Result, ok, err, ◌≡◌, refl, ap, inl, inr,
  str_eq, str_eq_refl, Bool-cases, string_key,
}
use ebpf_assist.Table.{Table}
use ebpf_assist.Table
use ebpf_assist.Common.{ProgramType}
use ebpf_assist.Daemon.Host.{Host, Program}
use ebpf_assist.Daemon.Loader.{
  contains_name, select_name, detect_type, detect_program, program, program_names, then_detected,
  typed_as,
}

get_of_contains_name {ℓ} :
    {V : Type ℓ} (t : Table String V) (name : String)
    → contains_name (map (λ r. r.0) t) name ≡ true
    → (v : V) × (Table.get t name ≡ some v)
unfolding contains_name Table.get
get_of_contains_name [] name e = cc
get_of_contains_name ((n, v) ∷ t) name e = elim (Bool-cases (str_eq n name)) [
  | inl same ↦ (v, rw same)
  | inr other ↦ rw other (get_of_contains_name t name (rw other at e))
]

-- The name that is selected stands in the object.
select_name-contains :
    (debug : String → String) (names : List String) (requested : Option String) {name : String}
    → select_name debug names requested ≡ ok name
    → contains_name names name ≡ true
unfolding select_name
select_name-contains debug [] requested e = cc
select_name-contains debug (n ∷ []) none {name} e =
    let same : n ≡ name = cc in rw same (unfold contains_name in rw str_eq_refl)
select_name-contains debug (n ∷ m ∷ ns) none e = cc
select_name-contains debug (n ∷ ns) (some r) {name} e =
    elim (Bool-cases (contains_name (n ∷ ns) r)) [
      | inl there ↦ let picked = rw there at e in let same : r ≡ name = cc in rw (← same) there
      | inr absent ↦ let refused = rw absent at e in cc
    ]

-- A name that was requested is the one that is selected.
select_name-requested :
    (debug : String → String) (names : List String) (requested : Option String)
    {name wanted : String}
    → requested ≡ some wanted
    → select_name debug names requested ≡ ok name
    → name ≡ wanted
unfolding select_name
select_name-requested debug [] requested same e = cc
select_name-requested debug (n ∷ ns) none same e = cc
select_name-requested debug (n ∷ ns) (some r) same e =
    elim (Bool-cases (contains_name (n ∷ ns) r)) [
      | inl there ↦ let picked = rw there at e in cc
      | inr absent ↦ let refused = rw absent at e in cc
    ]

typed_as_lem :
    (name : String) (o : Option Program) {n : String} {ty : ProgramType}
    → typed_as name o ≡ ok (n, ty)
    → (k : Program) × (o ≡ some k) × (name ≡ n) × (detect_type k ≡ ty)
typed_as_lem name none e = cc
typed_as_lem name (some k) e = (k, refl, cc, cc)

module _ (h : Host) where
  then_detected_lem :
      (bpf : h.Bpf) (r : Result String String) {n : String} {ty : ProgramType}
      → then_detected h bpf r ≡ ok (n, ty)
      → (k : Program) × (program h bpf n ≡ some k) × (detect_type k ≡ ty) × (r ≡ ok n)
  then_detected_lem bpf (ok name) e =
      let (k, found, same, typed) = typed_as_lem name (program h bpf name) e in
      (k, rw (← same) found, typed, ap ok same)
  then_detected_lem bpf (err m) e = cc

  -- What is detected is a program of the object under that name, with its type; a name that was
  -- requested is that name.
  pub detect_program_lem :
      (bpf : h.Bpf) (requested : Option String) {name : String} {ty : ProgramType}
      → detect_program h bpf requested ≡ ok (name, ty)
      → (k : Program) × (program h bpf name ≡ some k)
        × (detect_type k ≡ ty)
        × ((wanted : String) → requested ≡ some wanted → name ≡ wanted)
  unfolding detect_program
  detect_program_lem bpf requested e =
      let (k, found, typed, selected) =
        then_detected_lem bpf (select_name h.debug_str (program_names h bpf) requested) e in
      (
        k,
        found,
        typed,
        λ wanted same.
            select_name-requested h.debug_str (program_names h bpf) requested same selected,
      )

  -- `unwrap` finds the selected program: it does not panic.
  pub select_name-there :
      (bpf : h.Bpf) (requested : Option String) (name : String)
      → select_name h.debug_str (program_names h bpf) requested ≡ ok name
      → (k : Program) × (program h bpf name ≡ some k)
  select_name-there bpf requested name e =
      get_of_contains_name (h.programs bpf) name
        (select_name-contains h.debug_str (program_names h bpf) requested e)
