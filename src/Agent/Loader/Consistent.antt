-- ===== src/Agent/Loader/Consistent.antt =====
-- The two copies that an entry keeps of its id and of its attachment agree.
use ebpf_assist.Prelude.{
  ℕ, true, false, List, String, Option, none, some, Result, ok, err, nat_eq, nat_eq_iff, ℕ_eq, ◌≡◌,
  refl, arith, Bool-cases, inl, inr,
}
use ebpf_assist.Table
use ebpf_assist.Table.Laws.{get-insert, get-remove}
use ebpf_assist.Common.{ProgramId, ProgramType}
use ebpf_assist.Daemon.Host.{Host}
use ebpf_assist.Daemon.Loader.Invariant.{is_some}
use ebpf_assist.Agent.Loader.{
  LoadedProgram, ProgramLoader, LoaderError, new, fresh, mark, register, opened, load, mark_if,
  attach_found, attach, attach_first, detach_found, detach, unload_found, unload, unload_all,
  detect_program,
}

module _ (h : Host) (show : ℕ → String) where
  open h use {World, Bpf}

  pub record IsAgreed (id : ProgramId) (p : LoadedProgram h show) : Type 0 where
    pub filed : p.id ≡ id
    pub described : p.info.id ≡ id
    pub attached : p.info.attached ≡ p.attached
    pub point : p.info.attach_point ≡ p.attach_point
    pub marked : p.attached ≡ is_some p.attach_point

  pub record IsConsistent (ld : ProgramLoader h show) : Type 0 where
    pub entries :
        (id : ProgramId) (p : LoadedProgram h show)
        → Table.get ld.programs id ≡ some p
        → IsAgreed id p

  insert-IsConsistent :
      (ld : ProgramLoader h show) (n : ℕ) (key : ProgramId) (p : LoadedProgram h show)
      → IsAgreed key p
      → IsConsistent ld
      → IsConsistent (record { programs = Table.insert ld.programs key p; next_id = n })
  insert-IsConsistent ld n key p agreed k = record {
    entries = λ id q e. elim (Bool-cases (nat_eq key id)) [
      | inl same ↦
          let found : some p ≡ some q = rw (get-insert, same) at e in
          let this : p ≡ q = cc in rw (← this, ← (nat_eq_iff key id).0 same) agreed
      | inr other ↦ k.entries id q (rw (get-insert, other) at e)
    ];
  }

  mark-IsAgreed :
      (id : ProgramId) (p : LoadedProgram h show) (point : Option String)
      → IsAgreed id p
      → IsAgreed id (mark h show p (is_some point) point)
  mark-IsAgreed id p point a = record {
    filed = a.filed;
    described = a.described;
    attached = refl;
    point = refl;
    marked = refl;
  }

  pub new-IsConsistent : IsConsistent (new h show)
  unfolding new Table.get
  new-IsConsistent = record { entries = λ id p e. cc }

  register-IsConsistent :
      (ld : ProgramLoader h show) (ebpf : Bpf) (name : String)
      (r : Result LoaderError (String × ProgramType)) (w : World)
      → IsConsistent ld
      → IsConsistent (register h show ld ebpf name r w).1
  unfolding register
  register-IsConsistent ld ebpf name (err e) w k = k
  register-IsConsistent ld ebpf name (ok (found, ty)) w k =
      insert-IsConsistent ld _ ld.next_id (fresh h show ld.next_id name ty ebpf)
        (record { filed = refl; described = refl; attached = refl; point = refl; marked = refl }) k

  opened-IsConsistent :
      (ld : ProgramLoader h show) (name : String) (q : World × Result String Bpf)
      → IsConsistent ld
      → IsConsistent (opened h show ld name q).1
  unfolding opened
  opened-IsConsistent ld name (w, ok ebpf) k =
      register-IsConsistent ld ebpf name (detect_program (h.programs ebpf)) w k
  opened-IsConsistent ld name (w, err e) k = k

  pub load-IsConsistent :
      (ld : ProgramLoader h show) (bytes : List ℕ) (name : String) (w : World)
      → IsConsistent ld
      → IsConsistent (load h show ld bytes name w).1
  unfolding load
  load-IsConsistent ld bytes name w k = opened-IsConsistent ld name (h.load_bytes bytes w) k

  mark_if-IsConsistent :
      (ld : ProgramLoader h show) (id : ProgramId) (p : LoadedProgram h show) (target : String)
      (q : World × Result LoaderError (Unit {0}))
      → IsAgreed id p
      → IsConsistent ld
      → IsConsistent (mark_if h show ld id p target q).1
  mark_if-IsConsistent ld id p target (w, ok _) a k =
      insert-IsConsistent ld ld.next_id id (mark h show p true (some target))
        (mark-IsAgreed id p (some target) a) k
  mark_if-IsConsistent ld id p target (w, err e) a k = k

  attach_found-IsConsistent :
      (ld : ProgramLoader h show) (id : ProgramId) (target : String)
      (o : Option (LoadedProgram h show)) (w : World)
      → Table.get ld.programs id ≡ o
      → IsConsistent ld
      → IsConsistent (attach_found h show ld id target o w).1
  unfolding attach_found
  attach_found-IsConsistent ld id target none w e k = k
  attach_found-IsConsistent ld id target (some p) w e k = elim (Bool-cases p.attached) [
    | inl busy ↦ rw busy k
    | inr idle ↦ rw idle (
        mark_if-IsConsistent ld id p target
          (attach_first h show p.ebpf target (h.programs p.ebpf) w) (k.entries id p e) k)
  ]

  pub attach-IsConsistent :
      (ld : ProgramLoader h show) (id : ProgramId) (target : String) (w : World)
      → IsConsistent ld
      → IsConsistent (attach h show ld id target w).1
  unfolding attach
  attach-IsConsistent ld id target w k =
      attach_found-IsConsistent ld id target (Table.get ld.programs id) w refl k

  detach_found-IsConsistent :
      (ld : ProgramLoader h show) (id : ProgramId) (o : Option (LoadedProgram h show)) (w : World)
      → Table.get ld.programs id ≡ o
      → IsConsistent ld
      → IsConsistent (detach_found h show ld id o w).1
  detach_found-IsConsistent ld id none w e k = k
  detach_found-IsConsistent ld id (some p) w e k =
      insert-IsConsistent ld ld.next_id id (mark h show p false none)
        (mark-IsAgreed id p none (k.entries id p e)) k

  pub detach-IsConsistent :
      (ld : ProgramLoader h show) (id : ProgramId) (w : World)
      → IsConsistent ld
      → IsConsistent (detach h show ld id w).1
  unfolding detach
  detach-IsConsistent ld id w k =
      detach_found-IsConsistent ld id (Table.get ld.programs id) w refl k

  unload_found-IsConsistent :
      (ld : ProgramLoader h show) (id : ProgramId) (o : Option (LoadedProgram h show)) (w : World)
      → IsConsistent ld
      → IsConsistent (unload_found h show ld id o w).1
  unload_found-IsConsistent ld id none w k = k
  unload_found-IsConsistent ld id (some p) w k = record {
    entries = λ j q e. k.entries j q (ground (arith, get-remove ld.programs id j));
  }

  pub unload-IsConsistent :
      (ld : ProgramLoader h show) (id : ProgramId) (w : World)
      → IsConsistent ld
      → IsConsistent (unload h show ld id w).1
  unfolding unload
  unload-IsConsistent ld id w k = unload_found-IsConsistent ld id (Table.get ld.programs id) w k

  pub unload_all-IsConsistent :
      (ld : ProgramLoader h show) (w : World) → IsConsistent (unload_all h show ld w).1
  unfolding unload_all Table.get
  unload_all-IsConsistent ld w = record { entries = λ id p e. cc }
