-- ===== src/Daemon/Loader/Invariant.antt =====
-- What holds of every entry of the loader, whatever requests it has served.
use ebpf_assist.Prelude.{
  Bool, true, false, String, Option, none, some, ok, ◌≡◌, ◌≢◌, refl, arith, nat_eq, nat_eq_iff,
  ℕ_eq, Bool-cases, inl, inr,
}
use ebpf_assist.Table.{Table}
use ebpf_assist.Table
use ebpf_assist.Table.Laws.{get-insert, get-remove}
use ebpf_assist.Common.{ProgramId, deny, default_policy}
use ebpf_assist.Daemon.Host.{Host, Program}
use ebpf_assist.Daemon.Loader.{
  Loader, LoadedProgram, LoadResult, program, detect_type, new, load, attach, detach, unload,
  mark_attached, mark_detached,
}
use ebpf_assist.Daemon.Loader.Detect.{detect_program_lem}
use ebpf_assist.Daemon.Loader.Frame.{load-Admitted, attach_lem, detach_lem, unload_lem}
use ebpf_assist.Daemon.Loader.Policy.{policy_check-ne-deny}

abbrev pub is_some : {A : Type 0} → Option A → Bool
is_some none = false
is_some (some a) = true

module _ (h : Host) where
  -- An entry is filed under its own id, is marked attached exactly when it has an attach point, has
  -- a type that the policy does not deny, and names a program of its object that has that type.
  pub record IsSoundEntry (id : ProgramId) (p : LoadedProgram h) : Type 0 where
    pub filed : p.info.id ≡ id
    pub marked : p.info.attached ≡ is_some p.info.attach_point
    pub allowed : default_policy p.info.program_type ≢ deny
    pub kind : Program
    pub there : program h p.bpf p.info.name ≡ some kind
    pub typed : detect_type kind ≡ p.info.program_type

  abbrev pub IsSound : Loader h → Type 0
  IsSound ld =
      (id : ProgramId) (p : LoadedProgram h) → Table.get ld.programs id ≡ some p → IsSoundEntry id p

  insert-IsSound :
      (t : Table ProgramId (LoadedProgram h)) (id : ProgramId) (p : LoadedProgram h)
      → ((j : ProgramId) (q : LoadedProgram h) → Table.get t j ≡ some q → IsSoundEntry j q)
      → IsSoundEntry id p
      → (j : ProgramId) (q : LoadedProgram h) → Table.get (Table.insert t id p) j ≡ some q
      → IsSoundEntry j q
  insert-IsSound t id p sound new_entry j q e = elim (Bool-cases (nat_eq id j)) [
    | inl same ↦
        let found : some p ≡ some q = rw (get-insert, same) at e in
        let entry : p ≡ q = cc in rw (← entry, ← (nat_eq_iff id j).0 same) new_entry
    | inr other ↦ sound j q (rw (get-insert, other) at e)
  ]

  pub new-IsSound : IsSound (new h)
  unfolding new Table.get
  new-IsSound id p e = cc

  pub load-IsSound :
      (ld : Loader h) (path : String) (requested : Option String) (w : h.World) {ld' : Loader h}
      {r : LoadResult h}
      → IsSound ld
      → (load h ld path requested w).1 ≡ ok (ld', r)
      → IsSound ld'
  load-IsSound ld path requested w sound e =
      let a = load-Admitted h ld path requested w e in
      let (kind, there, typed, chosen) = detect_program_lem h a.bpf requested a.detected in
      rw (a.registered, a.described)
        (insert-IsSound ld.programs ld.next_id _ sound (record {
          filed = refl;
          marked = refl;
          allowed = policy_check-ne-deny a.type (default_policy a.type) a.allowed;
          kind = kind;
          there = there;
          typed = typed;
        }))

  pub attach-IsSound :
      (ld : Loader h) (id : ProgramId) (target : String) (w : h.World) {ld' : Loader h}
      → IsSound ld
      → (attach h ld id target w).1 ≡ ok ld'
      → IsSound ld'
  attach-IsSound ld id target w sound e =
      let (p, found, idle, ran, new_state) = attach_lem h ld id target w e in
      let s = sound id p found in
      rw new_state (
        insert-IsSound ld.programs id (mark_attached h p target) sound (record {
          filed = s.filed;
          marked = refl;
          allowed = s.allowed;
          kind = s.kind;
          there = s.there;
          typed = s.typed;
        }))

  pub detach-IsSound :
      (ld : Loader h) (id : ProgramId) (w : h.World) {ld' : Loader h}
      → IsSound ld
      → (detach h ld id w).1 ≡ ok ld'
      → IsSound ld'
  detach-IsSound ld id w sound e =
      let (p, found, busy, new_state) = detach_lem h ld id w e in
      let s = sound id p found in
      rw new_state (
        insert-IsSound ld.programs id (mark_detached h p) sound (record {
          filed = s.filed;
          marked = refl;
          allowed = s.allowed;
          kind = s.kind;
          there = s.there;
          typed = s.typed;
        }))

  pub unload-IsSound :
      (ld : Loader h) (id : ProgramId) (w : h.World) {ld' : Loader h}
      → IsSound ld
      → (unload h ld id w).1 ≡ ok ld'
      → IsSound ld'
  unload-IsSound ld id w sound e =
      let (p, found, new_state) = unload_lem h ld id w e in
      rw new_state (λ j q g. sound j q (ground (arith, get-remove ld.programs id j)))
