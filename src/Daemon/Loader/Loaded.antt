-- ===== src/Daemon/Loader/Loaded.antt =====
-- What a successful load has put into the loader.
use ebpf_assist.Prelude.{
  ℕ_eq, string_key, sym, ◌+◌, ◌%◌, false, String, Option, none, some, ok, ◌≡◌, ◌≢◌, refl,
}
use ebpf_assist.Table
use ebpf_assist.Table.Laws.{get-insert_self, get-insert_ne}
use ebpf_assist.Common.{ProgramId, deny, default_policy}
use ebpf_assist.Daemon.Host.{Host, Program}
use ebpf_assist.Daemon.Loader.{LoadResult, Loader, detect_type, load}
use ebpf_assist.Daemon.Loader.Detect.{detect_program_lem}
use ebpf_assist.Daemon.Loader.Frame.{load-Admitted}
use ebpf_assist.Daemon.Loader.Policy.{policy_check-ne-deny}

module _ (h : Host) where
  open h use {World, Bpf}

  -- What holds of the loader and the result after a load that succeeds.
  pub record IsLoaded (ld : Loader h) (path : String) (requested : Option String) (ld' : Loader h)
      (r : LoadResult h) : Type 0 where
    pub bpf : Bpf
    pub opened : (v : World) × ((h.load_file path v).1 ≡ ok bpf)
    pub kind : Program
    pub there : Table.get (h.programs bpf) r.info.name ≡ some kind
    pub typed : r.info.program_type ≡ detect_type kind
    pub chosen : (name : String) → requested ≡ some name → r.info.name ≡ name
    pub permitted : default_policy r.info.program_type ≢ deny
    pub id : r.info.id ≡ ld.next_id
    pub path_kept : r.info.path ≡ path
    pub idle : (r.info.attached ≡ false) × (r.info.attach_point ≡ none)
    pub filed : Table.get ld'.programs ld.next_id ≡ some (record { info = r.info; bpf = bpf })
    pub others :
        (j : ProgramId) → j ≢ ld.next_id → Table.get ld'.programs j ≡ Table.get ld.programs j
    pub counted : ld'.next_id ≡ (ld.next_id + 1) % 4294967296

  -- A load that succeeds has opened the object file at `path`, and under the counter's id the loader
  -- has, in place of any entry there, an entry that is not attached, for a program that the object
  -- holds under its name, with the type that it has there: the requested one, if one was requested.
  -- The policy does not deny its type. The entries under all other ids are what they were, the
  -- result describes the new entry, and the counter has gone on by one modulo 2^32.
  pub load-IsLoaded :
      (ld : Loader h) (path : String) (requested : Option String) (w : World) {ld' : Loader h}
      {r : LoadResult h}
      → (load h ld path requested w).1 ≡ ok (ld', r)
      → IsLoaded ld path requested ld' r
  load-IsLoaded ld path requested w e =
      let a = load-Admitted h ld path requested w e in
      let (k, found, typed, chosen) = detect_program_lem h a.bpf requested a.detected in
      rw (a.described) (record {
        bpf = a.bpf;
        opened = a.opened;
        kind = k;
        there = found;
        typed = sym typed;
        chosen = chosen;
        permitted = policy_check-ne-deny a.type (default_policy a.type) a.allowed;
        id = refl;
        path_kept = refl;
        idle = (refl, refl);
        filed = rw (a.registered, a.described) (get-insert_self ld.programs ld.next_id _);
        others = λ j other. rw (a.registered) (get-insert_ne ld.programs ld.next_id j _ other);
        counted = a.counted;
      })
