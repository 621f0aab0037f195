-- ===== src/Daemon/Loader.antt =====
-- crates/ebpf-assistd/src/loader.rs, the programs: loading under the policy, attaching, detaching
-- and unloading. The static counter `NEXT_ID` is a field of the state. An operation returns its
-- new state only if it succeeds: on every error path the source has not yet changed the state.
pub mod Detect
pub mod Frame
pub mod Loaded
pub mod Invariant
pub mod Policy
use ebpf_assist.Prelude.{
  ℕ, suc, ◌+◌, ◌%◌, Bool, true, false, List, [], ◌∷◌, map, String, ◌<>◌, Option, none, some, Result,
  ok, err, if◌then◌else◌, str_eq, ◌||◌, ok_or, split, string_key, ℕ_eq,
}
use ebpf_assist.Table.{Table}
use ebpf_assist.Table
use ebpf_assist.Common.{
  ProgramId, ProgramType, ProgramInfo, PolicyAction, allow, warn, deny, default_policy,
  policy_reason, debug_type,
}
use ebpf_assist.Daemon.Host.{Host, Program}
use ebpf_assist.Daemon.Io.{Io, pure, bail, lift, context, some_or, ◌>>=◌, ◌>>◌}
use ebpf_assist.Daemon.Caps.{with_caps}
use ebpf_assist.Daemon.Keys.{u32_bound}

-- `{:?}` of a vector of strings and of an optional string
abbrev join : (String → String) → List String → String
join debug [] = ""
join debug (s ∷ []) = debug s
join debug (s ∷ t ∷ rest) = debug s <> (", " <> join debug (t ∷ rest))

abbrev debug_option : (String → String) → Option String → String
debug_option debug none = "None"
debug_option debug (some s) = "Some(" <> (debug s <> ")")

-- `Vec::contains`
unfoldable pub contains_name : List String → String → Bool
contains_name [] name = false
contains_name (n ∷ ns) name = str_eq n name || contains_name ns name

unfoldable pub detect_type : Program → ProgramType
detect_type Program.k_probe = ProgramType.k_probe
detect_type Program.u_probe = ProgramType.u_probe
detect_type Program.trace_point = ProgramType.trace_point
detect_type Program.raw_trace_point = ProgramType.raw_trace_point
detect_type Program.xdp = ProgramType.xdp
detect_type Program.sched_classifier = ProgramType.sched_classifier
detect_type Program.cgroup_skb = ProgramType.cgroup_skb
detect_type Program.socket_filter = ProgramType.socket_filter
detect_type Program.perf_event = ProgramType.perf_event
detect_type _ = ProgramType.unknown

-- The check of the policy in `load`: a refusal, or the optional warning.
unfoldable pub policy_check : ProgramType → PolicyAction → Result String (Option String)
policy_check ty allow = ok none
policy_check ty warn =
    ok (some ("Warning: " <> (debug_type ty <> (" program loaded. " <> policy_reason ty))))
policy_check ty deny =
    err (
      "Policy violation: "
      <> (debug_type ty <> (" programs are not allowed. " <> policy_reason ty)))

-- The choice of a name in `detect_program`, from the names of the object.
unfoldable pub select_name : (String → String) → List String → Option String → Result String String
unfolding contains_name
select_name debug [] requested = err "No programs found in eBPF object file"
select_name debug names (some requested) =
    if contains_name names requested
    then ok requested
    else err
        ("Program '" <> (requested <> ("' not found. Available: [" <> (join debug names <> "]"))))
select_name debug (name ∷ []) none = ok name
select_name debug names none =
    err ("Multiple programs found, please specify one: [" <> (join debug names <> "]"))

-- `bpf.program(&name).unwrap()` and its type. The error is the panic of `unwrap`, which
-- `select_name-there` excludes.
abbrev pub typed_as : String → Option Program → Result String (String × ProgramType)
typed_as name none = err "called `Option::unwrap()` on a `None` value"
typed_as name (some prog) = ok (name, detect_type prog)

module _ (h : Host) where
  open h use {World, Bpf}

  pub record LoadedProgram : Type 0 where
    pub info : ProgramInfo
    pub bpf : Bpf

  pub record LoadResult : Type 0 where
    pub info : ProgramInfo
    pub warning : Option String

  pub record Loader : Type 0 where
    pub programs : Table ProgramId LoadedProgram
    pub next_id : ℕ

  unfoldable pub new : Loader
  new = record { programs = []; next_id = 1 }

  abbrev pub program_names : Bpf → List String
  program_names bpf = map (λ r. r.0) (h.programs bpf)

  -- `bpf.program(name)`
  abbrev pub program : Bpf → String → Option Program
  program bpf name = Table.get (h.programs bpf) name

  abbrev pub detected : Bpf → String → Result String (String × ProgramType)
  detected bpf name = typed_as name (program bpf name)

  abbrev then_detected : Bpf → Result String String → Result String (String × ProgramType)
  then_detected bpf (ok name) = detected bpf name
  then_detected bpf (err e) = err e

  unfoldable pub detect_program : Bpf → Option String → Result String (String × ProgramType)
  unfolding select_name
  detect_program bpf requested =
      then_detected bpf (select_name h.debug_str (program_names bpf) requested)

  -- What is dropped at the end of a scope: the object on an error path, a replaced map entry.
  abbrev pub drop_on_error : {A : Type 0} → Bpf → World × Result String A → World × Result String A
  drop_on_error bpf (w, ok a) = (w, ok a)
  drop_on_error bpf (w, err e) = (h.drop_bpf bpf w, err e)

  abbrev pub drop_replaced : Option LoadedProgram → World → World
  drop_replaced none w = w
  drop_replaced (some old) w = h.drop_bpf old.bpf w

  abbrev pub fresh_info : ℕ → String → ProgramType → String → ProgramInfo
  fresh_info id name ty path = record {
    id = id;
    name = name;
    program_type = ty;
    path = path;
    attached = false;
    attach_point = none;
  }

  -- `fetch_add` on the counter wraps at 2^32.
  unfoldable pub register :
      Loader
      → Bpf
      → (path : String) → String × ProgramType
      → Option String
      → Io World (Loader × LoadResult)
  register ld bpf path (name, ty) warning w =
      let info = fresh_info ld.next_id name ty path in
      (
        drop_replaced (Table.get ld.programs ld.next_id) w,
        ok (
          record {
            programs = Table.insert ld.programs ld.next_id (record { info = info; bpf = bpf });
            next_id = (ld.next_id + 1) % u32_bound;
          },
          record { info = info; warning = warning },
        ),
      )

  -- The body of `load` once the object is loaded.
  unfoldable pub admit :
      Loader → Bpf → (path : String) → Option String → Io World (Loader × LoadResult)
  unfolding detect_program policy_check register
  admit ld bpf path requested = do
    found ← lift (detect_program bpf requested)
    warning ← lift (policy_check found.1 (default_policy found.1))
    register ld bpf path found warning

  unfoldable pub load : Loader → (path : String) → Option String → Io World (Loader × LoadResult)
  unfolding admit with_caps
  load ld path requested = do
    bpf ←
        with_caps h (h.bpf_cap ∷ h.perfmon_cap ∷ [])
          (context "Failed to load eBPF program" (h.load_file path))
    λ w. drop_on_error bpf (admit ld bpf path requested w)

  -- `tp.attach(parts[0], parts[1])` behind the test of `parts.len()`
  unfoldable pub attach_parts : Bpf → String → List String → Io World (Unit {0})
  attach_parts bpf name (category ∷ event ∷ []) = h.attach_tracepoint bpf name category event
  attach_parts bpf name _ = bail "TracePoint target must be 'category:name'"

  unfoldable pub attach_kind : Bpf → String → (target : String) → Program → Io World (Unit {0})
  unfolding attach_parts
  attach_kind bpf name target Program.k_probe = do
    h.load_program bpf name
    h.attach_kprobe bpf name target
  attach_kind bpf name target Program.trace_point = do
    h.load_program bpf name
    attach_parts bpf name (split b':' target)
  attach_kind bpf name target Program.xdp = do h.load_program bpf name; h.attach_xdp bpf name target
  attach_kind bpf name target _ = bail "Attach not implemented for this program type yet"

  -- The closure of `attach`, which runs with the capabilities raised.
  unfoldable pub attach_program : Bpf → String → (target : String) → Io World (Unit {0})
  unfolding attach_kind
  attach_program bpf name target = do
    prog ← some_or (program bpf name) "Program not found in eBPF object"
    attach_kind bpf name target prog

  abbrev pub all_caps : List h.Cap
  all_caps = h.bpf_cap ∷ h.perfmon_cap ∷ h.net_admin_cap ∷ []

  abbrev pub mark_attached : LoadedProgram → String → LoadedProgram
  mark_attached p target = record p {
    info = record (p.info) { attached = true; attach_point = some target };
  }

  abbrev pub mark_detached : LoadedProgram → LoadedProgram
  mark_detached p = record p { info = record (p.info) { attached = false; attach_point = none } }

  -- The rest of `attach`, for the entry found.
  unfoldable pub attach_loaded :
      Loader → ProgramId → (target : String) → LoadedProgram → Io World Loader
  unfolding attach_program with_caps
  attach_loaded ld id target loaded =
      if loaded.info.attached
      then bail
          ("Program already attached to " <> debug_option h.debug_str loaded.info.attach_point)
      else (with_caps h all_caps (attach_program loaded.bpf loaded.info.name target)
          >> pure
              (record ld { programs = Table.insert ld.programs id (mark_attached loaded target) }))

  unfoldable pub attach : Loader → ProgramId → (target : String) → Io World Loader
  unfolding attach_loaded
  attach ld id target = do
    loaded ← some_or (Table.get ld.programs id) "Program not found"
    attach_loaded ld id target loaded

  unfoldable pub detach : Loader → ProgramId → Io World Loader
  detach ld id = do
    loaded ← some_or (Table.get ld.programs id) "Program not found"
    (if loaded.info.attached
        then pure (record ld { programs = Table.insert ld.programs id (mark_detached loaded) })
        else bail "Program is not attached")

  unfoldable pub unload : Loader → ProgramId → Io World Loader
  unload ld id = do
    loaded ← some_or (Table.get ld.programs id) "Program not found"
    λ w. (h.drop_bpf loaded.bpf w, ok (record ld { programs = Table.remove ld.programs id }))

  unfoldable pub list : Loader → List ProgramInfo
  list ld = map (λ p. p.info) (Table.values ld.programs)

  unfoldable pub count : Loader → ℕ
  count ld = Table.len ld.programs
