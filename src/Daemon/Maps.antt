-- ===== src/Daemon/Maps.antt =====
-- crates/ebpf-assistd/src/loader.rs, the maps of a loaded program: listing, reading, writing and
-- deleting. Maps live in the kernel, so reads depend on the world and writes change it; the loader
-- itself is not changed.
pub mod Dump
use ebpf_assist.Prelude.{
  ℕ, zero, suc, ◌+◌, Bool, List, [], ◌∷◌, map, String, ◌<>◌, Option, none, some, Result, ok, err,
  if◌then◌else◌, leb, min, ok_or, string_key, ℕ_eq,
}
use ebpf_assist.Table
use ebpf_assist.Common.{
  ProgramId, Text, MapType, hash, array, per_cpu_hash, per_cpu_array, perf_event_array, ring_buf,
  hash_map, lru_hash, lpm_trie, stack, queue, unknown_map, MapInfo, MapEntry,
}
use ebpf_assist.Daemon.Host.{Host, Map}
use ebpf_assist.Daemon.Io.{Io, bail, lift, some_or, ◌>>=◌, ◌>>◌}
use ebpf_assist.Daemon.Keys.{parse_key, parse_value, parse_index, hex8, hex16, to_string}
use ebpf_assist.Daemon.Loader.{Loader}

unfoldable pub detect_map_type : Map → MapType
detect_map_type Map.hash_map = hash
detect_map_type Map.array = array
detect_map_type Map.per_cpu_hash_map = per_cpu_hash
detect_map_type Map.per_cpu_array = per_cpu_array
detect_map_type Map.perf_event_array = perf_event_array
detect_map_type Map.ring_buf = ring_buf
detect_map_type Map.lru_hash_map = lru_hash
detect_map_type Map.stack = stack
detect_map_type Map.queue = queue
detect_map_type _ = unknown_map

-- The derived `Debug` of `MapType`.
unfoldable pub debug_map_type : MapType → String
debug_map_type hash = "Hash"
debug_map_type array = "Array"
debug_map_type per_cpu_hash = "PerCpuHash"
debug_map_type per_cpu_array = "PerCpuArray"
debug_map_type perf_event_array = "PerfEventArray"
debug_map_type ring_buf = "RingBuf"
debug_map_type hash_map = "HashMap"
debug_map_type lru_hash = "LruHash"
debug_map_type lpm_trie = "LpmTrie"
debug_map_type stack = "Stack"
debug_map_type queue = "Queue"
debug_map_type unknown_map = "Unknown"

abbrev unsupported : MapType → String → String
unsupported ty purpose =
    "Map type " <> (debug_map_type ty <> (" not yet supported for " <> purpose))

unfoldable pub array_entry : (index value : ℕ) → MapEntry
array_entry index value = record {
  key = to_string index;
  value = hex16 value;
  value_u64 = some value;
  value_str = none;
}

unfoldable pub hash_entry : (key value : ℕ) → MapEntry
hash_entry key value = record {
  key = hex8 key;
  value = hex16 value;
  value_u64 = some value;
  value_str = none;
}

-- The loop of the hash dump: it stops at 100 entries, and skips what cannot be read.
unfoldable pub hash_dump : (count : ℕ) → List (Result String (ℕ × ℕ)) → List MapEntry
unfolding hash_entry
hash_dump count [] = []
hash_dump count (err e ∷ items) = if leb 100 count then [] else hash_dump count items
hash_dump count (ok (k, v) ∷ items) =
    if leb 100 count then [] else hash_entry k v ∷ hash_dump (count + 1) items

module _ (h : Host) where
  open h use {World, Bpf}

  -- `bpf.map(name)`
  abbrev pub map_of : Bpf → String → Option Map
  map_of bpf name = Table.get (h.maps bpf) name

  -- Every variant of the enum holds map data; no information counts as zero sizes.
  unfoldable pub get_map_sizes : Bpf → String → World → ℕ × ℕ × ℕ
  get_map_sizes bpf name w = elim (h.map_data_info bpf name w) [
    | none ↦ (0, 0, 0)
    | some sizes ↦ sizes
  ]

  abbrev pub map_info : Bpf → World → String × Map → MapInfo
  map_info bpf w (name, m) =
      let (key_size, value_size, max_entries) = get_map_sizes bpf name w in
      record {
        name = name;
        map_type = detect_map_type m;
        key_size = key_size;
        value_size = value_size;
        max_entries = max_entries;
      }

  unfoldable pub list_maps : Loader h → ProgramId → Io World (List MapInfo)
  unfolding detect_map_type get_map_sizes
  list_maps ld id = do
    loaded ← some_or (Table.get ld.programs id) "Program not found"
    λ w. (w, ok (map (map_info loaded.bpf w) (h.maps loaded.bpf)))

  abbrev push_read : ℕ → Result String ℕ → List MapEntry → List MapEntry
  push_read index (ok value) rest = array_entry index value ∷ rest
  push_read index (err e) rest = rest

  -- The loop of the array dump, over the indices from `index`.
  unfoldable pub array_dump : Bpf → String → World → (index rounds : ℕ) → List MapEntry
  unfolding array_entry
  array_dump bpf name w index zero = []
  array_dump bpf name w index (suc rounds) =
      push_read index (h.array_get bpf name index w) (array_dump bpf name w (index + 1) rounds)

  unfoldable pub read_array_map : Bpf → String → Option Text → Io World (List MapEntry)
  unfolding array_dump array_entry
  read_array_map bpf name (some key) = do
    lift (h.array_try_from bpf name)
    index ← lift (parse_index key)
    value ← λ w. (w, h.array_get bpf name index w)
    lift (ok (array_entry index value ∷ []))
  read_array_map bpf name none = do
    lift (h.array_try_from bpf name)
    λ w. (w, ok (array_dump bpf name w 0 (min (h.array_len bpf name w) 100)))

  unfoldable pub read_hash_map : Bpf → String → Option Text → Io World (List MapEntry)
  unfolding hash_dump hash_entry
  read_hash_map bpf name (some key) = do
    lift (h.hash_try_from bpf name)
    k ← lift (parse_key key)
    value ← λ w. (w, h.hash_get bpf name k w)
    lift (ok (hash_entry k value ∷ []))
  read_hash_map bpf name none = do
    lift (h.hash_try_from bpf name)
    λ w. (w, ok (hash_dump 0 (h.hash_iter bpf name w)))

  unfoldable pub read_typed : MapType → Bpf → String → Option Text → Io World (List MapEntry)
  unfolding read_array_map read_hash_map
  read_typed array bpf name key = read_array_map bpf name key
  read_typed hash bpf name key = read_hash_map bpf name key
  read_typed ty bpf name key = bail (unsupported ty "reading")

  unfoldable pub read_map :
      Loader h → ProgramId → (map_name : String) → Option Text → Io World (List MapEntry)
  unfolding detect_map_type read_typed
  read_map ld id map_name key = do
    loaded ← some_or (Table.get ld.programs id) "Program not found"
    m ← some_or (map_of loaded.bpf map_name) "Map not found"
    read_typed (detect_map_type m) loaded.bpf map_name key

  unfoldable pub write_typed : MapType → Bpf → String → (key value : Text) → Io World (Unit {0})
  write_typed array bpf name key value = do
    lift (h.array_try_from bpf name)
    index ← lift (parse_index key)
    v ← lift (parse_value value)
    h.array_set bpf name index v
  write_typed hash bpf name key value = do
    lift (h.hash_try_from bpf name)
    k ← lift (parse_key key)
    v ← lift (parse_value value)
    h.hash_insert bpf name k v
  write_typed ty bpf name key value = bail (unsupported ty "writing")

  unfoldable pub write_map :
      Loader h → ProgramId → (map_name : String) → (key value : Text) → Io World (Unit {0})
  unfolding detect_map_type write_typed
  write_map ld id map_name key value = do
    loaded ← some_or (Table.get ld.programs id) "Program not found"
    m ← some_or (map_of loaded.bpf map_name) "Map not found"
    write_typed (detect_map_type m) loaded.bpf map_name key value

  unfoldable pub delete_typed : MapType → Bpf → String → (key : Text) → Io World (Unit {0})
  delete_typed hash bpf name key = do
    lift (h.hash_try_from bpf name)
    k ← lift (parse_key key)
    h.hash_remove bpf name k
  delete_typed array bpf name key = bail "Cannot delete entries from array maps (use write with 0)"
  delete_typed ty bpf name key = bail (unsupported ty "deletion")

  unfoldable pub delete_map_entry :
      Loader h → ProgramId → (map_name : String) → (key : Text) → Io World (Unit {0})
  unfolding detect_map_type delete_typed
  delete_map_entry ld id map_name key = do
    loaded ← some_or (Table.get ld.programs id) "Program not found"
    m ← some_or (map_of loaded.bpf map_name) "Map not found"
    delete_typed (detect_map_type m) loaded.bpf map_name key
