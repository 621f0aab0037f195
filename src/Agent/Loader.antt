-- ===== src/Agent/Loader.antt =====
-- crates/ebpf-assist-agent/src/loader.rs: the programs that the agent has loaded in its guest. Ids
-- wrap at 2^32, as they do in a release build.
pub mod Consistent
use ebpf_assist.Prelude.{
  ℕ, ◌+◌, ◌%◌, Bool, true, false, List, [], ◌∷◌, map, String, ◌<>◌, Option, none, some, Result, ok,
  err, if◌then◌else◌, ℕ_eq, split_once,
}
use ebpf_assist.Table.{Table}
use ebpf_assist.Table
use ebpf_assist.Common.{ProgramId, ProgramType, ProgramInfo, MapInfo}
use ebpf_assist.Daemon.Host.{Host, Program}
use ebpf_assist.Daemon.Maps

pub data LoaderError : Type 0 where
  load_failed program_not_found attach_failed unsupported_type : String → LoaderError
  map_not_found map_error : String → LoaderError

-- The `Display` of an error
unfoldable pub display : LoaderError → String
display (load_failed e) = "Failed to load eBPF object: " <> e
display (program_not_found e) = "Program not found: " <> e
display (attach_failed e) = "Failed to attach program: " <> e
display (unsupported_type e) = "Unsupported program type: " <> e
display (map_not_found e) = "Map not found: " <> e
display (map_error e) = "Map operation failed: " <> e

-- The types that `detect_program` knows.
unfoldable pub known_type : Program → Option ProgramType
known_type Program.k_probe = some ProgramType.k_probe
known_type Program.u_probe = some ProgramType.u_probe
known_type Program.trace_point = some ProgramType.trace_point
known_type Program.xdp = some ProgramType.xdp
known_type Program.sched_classifier = some ProgramType.sched_classifier
known_type Program.cgroup_skb = some ProgramType.cgroup_skb
known_type Program.socket_filter = some ProgramType.socket_filter
known_type Program.raw_trace_point = some ProgramType.raw_trace_point
known_type Program.lsm = some ProgramType.lsm
known_type Program.perf_event = some ProgramType.perf_event
known_type Program.other_program = none

abbrev or_next :
    {A : Type 0}
    → String
    → Option ProgramType
    → Result A (String × ProgramType)
    → Result A (String × ProgramType)
or_next name (some ty) rest = ok (name, ty)
or_next name none rest = rest

unfoldable pub detect_program : List (String × Program) → Result LoaderError (String × ProgramType)
unfolding known_type
detect_program [] = err (program_not_found "No supported program found in object")
detect_program ((name, prog) ∷ rest) = or_next name (known_type prog) (detect_program rest)

-- `show` is the `Display` of a number.
module _ (h : Host) (show : ℕ → String) where
  open h use {World, Bpf}

  pub record LoadedProgram : Type 0 where
    pub id : ProgramId
    pub info : ProgramInfo
    pub ebpf : Bpf
    pub attached : Bool
    pub attach_point : Option String

  pub record ProgramLoader : Type 0 where
    pub programs : Table ProgramId LoadedProgram
    pub next_id : ℕ

  -- A method of the loader.
  abbrev pub Act : Type 0 → Type 0
  Act A = World → World × ProgramLoader × Result LoaderError A

  unfoldable pub new : ProgramLoader
  new = record { programs = []; next_id = 1 }

  abbrev pub fresh_info : ProgramId → String → ProgramType → ProgramInfo
  fresh_info id name ty = record {
    id = id;
    name = name;
    program_type = ty;
    path = "<memory>";
    attached = false;
    attach_point = none;
  }

  abbrev pub fresh : ProgramId → String → ProgramType → Bpf → LoadedProgram
  fresh id name ty ebpf = record {
    id = id;
    info = fresh_info id name ty;
    ebpf = ebpf;
    attached = false;
    attach_point = none;
  }

  abbrev drop_replaced : Option LoadedProgram → World → World
  drop_replaced none w = w
  drop_replaced (some old) w = h.drop_bpf old.ebpf w

  -- The rest of `load`, once the type is known: the program is filed under the next id.
  unfoldable pub register :
      ProgramLoader
      → Bpf
      → (name : String) → Result LoaderError (String × ProgramType)
      → Act (ProgramId × ProgramInfo)
  unfolding drop_replaced
  register ld ebpf name (err e) w = (h.drop_bpf ebpf w, ld, err e)
  register ld ebpf name (ok (found, ty)) w = (
    drop_replaced (Table.get ld.programs ld.next_id) w,
    record {
      programs = Table.insert ld.programs ld.next_id (fresh ld.next_id name ty ebpf);
      next_id = (ld.next_id + 1) % 4294967296;
    },
    ok (ld.next_id, fresh_info ld.next_id name ty),
  )

  abbrev pub opened :
      ProgramLoader
      → (name : String) → World × Result String Bpf
      → World × ProgramLoader × Result LoaderError (ProgramId × ProgramInfo)
  unfolding register detect_program
  opened ld name (w, ok ebpf) = register ld ebpf name (detect_program (h.programs ebpf)) w
  opened ld name (w, err e) = (w, ld, err (load_failed e))

  unfoldable pub load :
      ProgramLoader → (bytes : List ℕ) (name : String) → Act (ProgramId × ProgramInfo)
  unfolding opened
  load ld bytes name w = opened ld name (h.load_bytes bytes w)

  -- `.map_err(|e| LoaderError::Attach(e.to_string()))?` and what follows
  abbrev and_attach :
      World × Result String (Unit {0})
      → (World → World × Result LoaderError (Unit {0}))
      → World × Result LoaderError (Unit {0})
  and_attach (w, ok _) next = next w
  and_attach (w, err e) next = (w, err (attach_failed e))

  abbrev in_parts :
      String
      → (String → String → World → World × Result String (Unit {0}))
      → Option (String × String)
      → World
      → World × Result LoaderError (Unit {0})
  in_parts message act none w = (w, err (attach_failed message))
  in_parts message act (some (a, b)) w = and_attach (act a b w) (λ v. (v, ok tt))

  -- The loop of `attach`: the first program of a type that can be attached.
  unfoldable pub attach_first :
      Bpf
      → (target : String) → List (String × Program)
      → World
      → World × Result LoaderError (Unit {0})
  unfolding split_once
  attach_first ebpf target [] w = (w, err (attach_failed "No attachable program found"))
  attach_first ebpf target ((name, Program.k_probe) ∷ rest) w =
      and_attach (h.load_program ebpf name w)
        λ v. and_attach (h.attach_kprobe ebpf name target v) (λ u. (u, ok tt))
  attach_first ebpf target ((name, Program.u_probe) ∷ rest) w =
      and_attach (h.load_program ebpf name w) (
        in_parts "UProbe target must be 'path:symbol' or 'path:offset'" (h.attach_uprobe ebpf name)
          (split_once b':' target))
  attach_first ebpf target ((name, Program.trace_point) ∷ rest) w =
      and_attach (h.load_program ebpf name w) (
        in_parts "Tracepoint target must be 'category/name'" (h.attach_tracepoint ebpf name)
          (split_once b'/' target))
  attach_first ebpf target ((name, _) ∷ rest) w = attach_first ebpf target rest w

  -- The four assignments of `attach` and of `detach`.
  abbrev pub mark : LoadedProgram → Bool → Option String → LoadedProgram
  mark p attached point = record p {
    info = record (p.info) { attached = attached; attach_point = point };
    attached = attached;
    attach_point = point;
  }

  abbrev pub mark_if :
      ProgramLoader
      → ProgramId
      → LoadedProgram
      → String
      → World × Result LoaderError (Unit {0})
      → World × ProgramLoader × Result LoaderError (Unit {0})
  mark_if ld id p target (w, ok _) =
      (w, record ld { programs = Table.insert ld.programs id (mark p true (some target)) }, ok tt)
  mark_if ld id p target (w, err e) = (w, ld, err e)

  abbrev missing : {A : Type 0} → ProgramId → Result LoaderError A
  missing id = err (program_not_found ("ID " <> show id))

  abbrev pub attach_found :
      ProgramLoader → ProgramId → (target : String) → Option LoadedProgram → Act (Unit {0})
  unfolding attach_first
  attach_found ld id target none w = (w, ld, missing id)
  attach_found ld id target (some p) w =
      if p.attached
      then (w, ld, ok tt)
      else mark_if ld id p target (attach_first p.ebpf target (h.programs p.ebpf) w)

  unfoldable pub attach : ProgramLoader → ProgramId → (target : String) → Act (Unit {0})
  unfolding attach_found
  attach ld id target w = attach_found ld id target (Table.get ld.programs id) w

  abbrev pub detach_found : ProgramLoader → ProgramId → Option LoadedProgram → Act (Unit {0})
  detach_found ld id none w = (w, ld, missing id)
  detach_found ld id (some p) w =
      (w, record ld { programs = Table.insert ld.programs id (mark p false none) }, ok tt)

  unfoldable pub detach : ProgramLoader → ProgramId → Act (Unit {0})
  detach ld id w = detach_found ld id (Table.get ld.programs id) w

  abbrev pub unload_found : ProgramLoader → ProgramId → Option LoadedProgram → Act (Unit {0})
  unload_found ld id none w = (w, ld, missing id)
  unload_found ld id (some p) w =
      (h.drop_bpf p.ebpf w, record ld { programs = Table.remove ld.programs id }, ok tt)

  unfoldable pub unload : ProgramLoader → ProgramId → Act (Unit {0})
  unload ld id w = unload_found ld id (Table.get ld.programs id) w

  abbrev drop_each : List LoadedProgram → World → World
  drop_each [] w = w
  drop_each (p ∷ ps) w = drop_each ps (h.drop_bpf p.ebpf w)

  unfoldable pub unload_all : ProgramLoader → World → World × ProgramLoader × ℕ
  unfolding drop_each
  unload_all ld w =
      (drop_each (Table.values ld.programs) w, record ld { programs = [] }, Table.len ld.programs)

  unfoldable pub list : ProgramLoader → List ProgramInfo
  list ld = map (λ p. p.info) (Table.values ld.programs)

  unfoldable pub count : ProgramLoader → ℕ
  count ld = Table.len ld.programs

  -- The types and the sizes of maps are found as by the daemon.
  unfoldable pub list_maps : ProgramLoader → ProgramId → World → Result LoaderError (List MapInfo)
  unfolding Maps.map_info
  list_maps ld id w = elim (Table.get ld.programs id) [
    | none ↦ missing id
    | some p ↦ ok (map (Maps.map_info h p.ebpf w) (h.maps p.ebpf))
  ]
