-- ===== src/Daemon/Loader/Frame.antt =====
-- What a successful operation of the loader has found and has changed.
use ebpf_assist.Prelude.{
  ℕ_eq, ◌+◌, ◌%◌, true, false, List, [], ◌∷◌, String, Option, some, Result, ok, err, ◌≡◌, refl, sym,
  ◌∙◌, arith, Bool-cases, inl, inr, ok_or,
}
use ebpf_assist.Table.{Table}
use ebpf_assist.Table
use ebpf_assist.Common.{ProgramId, ProgramType, default_policy}
use ebpf_assist.Daemon.Host.{Host}
use ebpf_assist.Daemon.Io.{Io, context_of, lift, context, bind_at-eq-ok, >>=-eq-ok, some_or-eq-ok}
use ebpf_assist.Daemon.Caps.{with_caps, guarded, raise_caps}
use ebpf_assist.Daemon.Keys.{u32_bound}
use ebpf_assist.Daemon.Loader.{
  LoadedProgram, LoadResult, Loader, detect_program, policy_check, drop_on_error, fresh_info,
  register, admit, load, attach, attach_loaded, attach_program, all_caps, mark_attached,
  mark_detached, detach, unload,
}

module _ (h : Host) where
  open h use {World, Bpf, Cap}

  -- A successful `load`: the object and what was detected in it, the policy's answer, the entry.
  pub record Admitted (ld : Loader h) (path : String) (requested : Option String) (ld' : Loader h)
      (r : LoadResult h) : Type 0 where
    pub bpf : Bpf
    pub opened : (v : World) × ((h.load_file path v).1 ≡ ok bpf)
    pub name : String
    pub type : ProgramType
    pub detected : detect_program h bpf requested ≡ ok (name, type)
    pub allowed : policy_check type (default_policy type) ≡ ok r.warning
    pub described : r.info ≡ fresh_info h ld.next_id name type path
    pub registered :
        ld'.programs ≡ Table.insert ld.programs ld.next_id (record { info = r.info; bpf = bpf })
    pub counted : ld'.next_id ≡ (ld.next_id + 1) % u32_bound

  drop_on_error_result :
      {A : Type 0} (bpf : Bpf) (x : World × Result String A) → (drop_on_error h bpf x).1 ≡ x.1
  drop_on_error_result bpf (w, ok a) = refl
  drop_on_error_result bpf (w, err e) = refl

  register-Admitted :
      (ld : Loader h) (bpf : Bpf) (path : String) (requested : Option String) (name : String)
      (type : ProgramType) (warning : Option String) (w : World) {ld' : Loader h} {r : LoadResult h}
      → (v : World) × ((h.load_file path v).1 ≡ ok bpf)
      → detect_program h bpf requested ≡ ok (name, type)
      → policy_check type (default_policy type) ≡ ok warning
      → (register h ld bpf path (name, type) warning w).1 ≡ ok (ld', r)
      → Admitted ld path requested ld' r
  unfolding register
  register-Admitted ld bpf path requested name type warning w opened d p e = record {
    bpf = bpf;
    opened = opened;
    name = name;
    type = type;
    detected = d;
    allowed = ground arith;
    described = ground arith;
    registered = ground arith;
    counted = ground arith;
  }

  admit-Admitted :
      (ld : Loader h) (bpf : Bpf) (path : String) (requested : Option String) (w : World)
      {ld' : Loader h} {r : LoadResult h}
      → (v : World) × ((h.load_file path v).1 ≡ ok bpf)
      → (admit h ld bpf path requested w).1 ≡ ok (ld', r)
      → Admitted ld path requested ld' r
  unfolding admit
  admit-Admitted ld bpf path requested w opened e =
      let ((name, type), d, e') = >>=-eq-ok (lift (detect_program h bpf requested)) _ w e in
      let (warning, p, e'') = >>=-eq-ok (lift (policy_check type (default_policy type))) _ w e' in
      register-Admitted ld bpf path requested name type warning w opened d p e''

  -- An operation that succeeds with its capabilities raised has succeeded in some world.
  guarded-eq-ok :
      {A : Type 0} (caps : List Cap) (f : Io World A) (w : World)
      (raised : Result String (Unit {0})) {a : A}
      → (guarded h caps f w raised).1 ≡ ok a
      → (v : World) × ((f v).1 ≡ ok a)
  guarded-eq-ok caps f w (ok _) e = (w, e)
  guarded-eq-ok caps f w (err m) e = cc

  with_caps-eq-ok :
      {A : Type 0} (caps : List Cap) (f : Io World A) (w : World) {a : A}
      → (with_caps h caps f w).1 ≡ ok a
      → (v : World) × ((f v).1 ≡ ok a)
  unfolding with_caps
  with_caps-eq-ok caps f w e =
      guarded-eq-ok caps f (raise_caps h caps w).0 (raise_caps h caps w).1 e

  context-eq-ok :
      {A : Type 0} (message : String) (r : Result String A) {a : A}
      → context_of message r ≡ ok a
      → r ≡ ok a
  context-eq-ok message (ok b) e = e
  context-eq-ok message (err m) e = cc

  pub load-Admitted :
      (ld : Loader h) (path : String) (requested : Option String) (w : World) {ld' : Loader h}
      {r : LoadResult h}
      → (load h ld path requested w).1 ≡ ok (ld', r)
      → Admitted ld path requested ld' r
  unfolding load
  load-Admitted ld path requested w e =
      let opened =
        with_caps h (h.bpf_cap ∷ h.perfmon_cap ∷ [])
          (context "Failed to load eBPF program" (h.load_file path)) in
      let (bpf, o, e') = >>=-eq-ok opened _ w e in
      let (v, loaded) =
        with_caps-eq-ok (h.bpf_cap ∷ h.perfmon_cap ∷ [])
          (context "Failed to load eBPF program" (h.load_file path)) w o in
      admit-Admitted ld bpf path requested (opened w).0
        (v, context-eq-ok "Failed to load eBPF program" (h.load_file path v).1 loaded)
        (sym (drop_on_error_result bpf (admit h ld bpf path requested (opened w).0)) ∙ e')

  attach_loaded_lem :
      (ld : Loader h) (id : ProgramId) (target : String) (p : LoadedProgram h) (w : World)
      {ld' : Loader h}
      → (attach_loaded h ld id target p w).1 ≡ ok ld'
      → (p.info.attached ≡ false)
        × ((with_caps h (all_caps h) (attach_program h p.bpf p.info.name target) w).1 ≡ ok tt)
        × (ld' ≡ record ld { programs = Table.insert ld.programs id (mark_attached h p target) })
  unfolding attach_loaded
  attach_loaded_lem ld id target p w e = elim (Bool-cases p.info.attached) [
    | inl busy ↦ let refused = rw (busy, attach_loaded) at e in cc
    | inr idle ↦
        let (unit, r, e') =
          >>=-eq-ok (with_caps h (all_caps h) (attach_program h p.bpf p.info.name target)) _ w
            (rw (idle, attach_loaded) at e) in
        (idle, r, cc)
  ]

  pub attach_lem :
      (ld : Loader h) (id : ProgramId) (target : String) (w : World) {ld' : Loader h}
      → (attach h ld id target w).1 ≡ ok ld'
      → (p : LoadedProgram h) × (Table.get ld.programs id ≡ some p)
        × (p.info.attached ≡ false)
        × ((with_caps h (all_caps h) (attach_program h p.bpf p.info.name target) w).1 ≡ ok tt)
        × (ld' ≡ record ld { programs = Table.insert ld.programs id (mark_attached h p target) })
  unfolding attach attach_loaded
  attach_lem ld id target w e =
      let (p, o, e') = bind_at-eq-ok w (ok_or (Table.get ld.programs id) "Program not found") _ e in
      let (idle, r, e'') = attach_loaded_lem ld id target p w e' in
      (p, some_or-eq-ok _ _ o, idle, r, e'')

  pub detach_lem :
      (ld : Loader h) (id : ProgramId) (w : World) {ld' : Loader h}
      → (detach h ld id w).1 ≡ ok ld'
      → (p : LoadedProgram h) × (Table.get ld.programs id ≡ some p)
        × (p.info.attached ≡ true)
        × (ld' ≡ record ld { programs = Table.insert ld.programs id (mark_detached h p) })
  unfolding detach
  detach_lem ld id w e =
      let (p, o, e') = bind_at-eq-ok w (ok_or (Table.get ld.programs id) "Program not found") _ e in
      (p, some_or-eq-ok _ _ o, ground arith, ground arith)

  pub unload_lem :
      (ld : Loader h) (id : ProgramId) (w : World) {ld' : Loader h}
      → (unload h ld id w).1 ≡ ok ld'
      → (p : LoadedProgram h) × (Table.get ld.programs id ≡ some p)
        × (ld' ≡ record ld { programs = Table.remove ld.programs id })
  unfolding unload
  unload_lem ld id w e =
      let (p, o, e') = bind_at-eq-ok w (ok_or (Table.get ld.programs id) "Program not found") _ e in
      (p, some_or-eq-ok _ _ o, ground arith)
