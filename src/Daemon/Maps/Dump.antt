-- ===== src/Daemon/Maps/Dump.antt =====
-- The dumps of a map: how long they are, and that their keys can be read back.
use ebpf_assist.Prelude.{
  ℕ, zero, suc, ◌+◌, ◌≤◌, ◌<◌, List, [], ◌∷◌, String, none, some, Result, ok, err, leb, min, length,
  All, ℕ_eq, string_key, ◌≡◌, refl, arith, Bool-cases, inl, inr,
}
use ebpf_assist.Table
use ebpf_assist.Common.{ProgramId, MapEntry, MapType, array, hash}
use ebpf_assist.Daemon.Host.{Host}
use ebpf_assist.Daemon.Io.{>>=-eq-ok, bind_at-eq-ok, some_or}
use ebpf_assist.Daemon.Keys.Decimal.{parse_index-to_string}
use ebpf_assist.Daemon.Loader.{Loader}
use ebpf_assist.Daemon.Maps.{
  map_of, array_entry, hash_dump, array_dump, push_read, read_array_map, read_hash_map, read_typed,
  read_map, detect_map_type,
}

hash_dump-length :
    (count : ℕ) (items : List (Result String (ℕ × ℕ)))
    → count ≤ 100
    → length (hash_dump count items) + count ≤ 100
unfolding hash_dump
hash_dump-length count [] room = omega (arith, room)
hash_dump-length count (err e ∷ items) room = ground (arith, hash_dump-length count items room)
hash_dump-length count (ok (k, v) ∷ items) room = elim (Bool-cases (leb 100 count)) [
  | inl full ↦ rw full (omega (arith, room))
  | inr free ↦
      let more : count + 1 ≤ 100 = ground arith in
      rw free (omega (arith, hash_dump-length (count + 1) items more))
]

module _ (h : Host) where
  open h use {World, Bpf}

  push_read-length :
      (index : ℕ) (r : Result String ℕ) (rest : List MapEntry)
      → length (push_read h index r rest) ≤ 1 + length rest
  push_read-length index (ok v) rest = omega arith
  push_read-length index (err e) rest = omega arith

  array_dump-length :
      (bpf : Bpf) (name : String) (w : World) (index rounds : ℕ)
      → length (array_dump h bpf name w index rounds) ≤ rounds
  unfolding array_dump
  array_dump-length bpf name w index zero = omega arith
  array_dump-length bpf name w index (suc rounds) = omega (
    arith,
    push_read-length index (h.array_get bpf name index w)
        (array_dump h bpf name w (index + 1) rounds),
    array_dump-length bpf name w (index + 1) rounds,
  )

  -- An entry that a read of its key alone gives back, from the same map in the same world.
  abbrev pub IsReadable : Bpf → String → World → MapEntry → Type 0
  IsReadable bpf name w entry = read_array_map h bpf name (some entry.key) w ≡ (w, ok (entry ∷ []))

  entry-IsReadable :
      (bpf : Bpf) (name : String) (w : World) (index v : ℕ)
      → h.array_try_from bpf name ≡ ok tt
      → index < 4294967296
      → h.array_get bpf name index w ≡ ok v
      → IsReadable bpf name w (array_entry index v)
  unfolding read_array_map array_entry
  entry-IsReadable bpf name w index v typed small reads =
      rw (typed, parse_index-to_string index small, reads) refl

  push_read-IsReadable :
      (bpf : Bpf) (name : String) (w : World) (index : ℕ) (r : Result String ℕ)
      (rest : List MapEntry)
      → h.array_try_from bpf name ≡ ok tt
      → index < 4294967296
      → h.array_get bpf name index w ≡ r
      → All (IsReadable bpf name w) rest
      → All (IsReadable bpf name w) (push_read h index r rest)
  push_read-IsReadable bpf name w index (ok v) rest typed small e readable =
      (entry-IsReadable bpf name w index v typed small e, readable)
  push_read-IsReadable bpf name w index (err x) rest typed small e readable = readable

  array_dump-IsReadable :
      (bpf : Bpf) (name : String) (w : World) (index rounds : ℕ)
      → h.array_try_from bpf name ≡ ok tt
      → index + rounds ≤ 100
      → All (IsReadable bpf name w) (array_dump h bpf name w index rounds)
  unfolding array_dump
  array_dump-IsReadable bpf name w index zero typed small = tt
  array_dump-IsReadable bpf name w index (suc rounds) typed small =
      push_read-IsReadable bpf name w index (h.array_get bpf name index w)
        (array_dump h bpf name w (index + 1) rounds) typed (omega arith) refl
        (array_dump-IsReadable bpf name w (index + 1) rounds typed (omega arith))

  -- A dump of an array map that succeeds has at most 100 entries, and each of them is what a read
  -- of its key gives back.
  pub read_array_map-dump :
      (bpf : Bpf) (name : String) (w : World) {entries : List MapEntry}
      → (read_array_map h bpf name none w).1 ≡ ok entries
      → (length entries ≤ 100) × All (IsReadable bpf name w) entries
  unfolding read_array_map
  read_array_map-dump bpf name w {entries} e =
      let (t, typed, dumped) = bind_at-eq-ok w (h.array_try_from bpf name) _ e in
      let rounds = min (h.array_len bpf name w) 100 in
      let same : array_dump h bpf name w 0 rounds ≡ entries = cc in
      rw (← same) (
        omega (arith, array_dump-length bpf name w 0 rounds),
        array_dump-IsReadable bpf name w 0 rounds typed (omega arith),
      )

  -- A dump of a hash map that succeeds has at most 100 entries.
  read_hash_map-dump :
      (bpf : Bpf) (name : String) (w : World) {entries : List MapEntry}
      → (read_hash_map h bpf name none w).1 ≡ ok entries
      → length entries ≤ 100
  unfolding read_hash_map
  read_hash_map-dump bpf name w {entries} e =
      let (t, typed, dumped) = bind_at-eq-ok w (h.hash_try_from bpf name) _ e in
      let same : hash_dump 0 (h.hash_iter bpf name w) ≡ entries = cc in
      rw (← same) (omega (arith, hash_dump-length 0 (h.hash_iter bpf name w) (omega arith)))

  read_typed-dump :
      (ty : MapType) (bpf : Bpf) (name : String) (w : World) {entries : List MapEntry}
      → (read_typed h ty bpf name none w).1 ≡ ok entries
      → length entries ≤ 100
  unfolding read_typed
  read_typed-dump array bpf name w e = (read_array_map-dump bpf name w e).0
  read_typed-dump hash bpf name w e = read_hash_map-dump bpf name w e
  read_typed-dump _ bpf name w e = cc

  -- A read of a whole map gives at most 100 entries.
  pub read_map-length :
      (ld : Loader h) (id : ProgramId) (name : String) (w : World) {entries : List MapEntry}
      → (read_map h ld id name none w).1 ≡ ok entries
      → length entries ≤ 100
  unfolding read_map
  read_map-length ld id name w e =
      let (p, found, e1) =
        >>=-eq-ok (some_or (Table.get ld.programs id) "Program not found") _ w e in
      let (k, there, e2) = >>=-eq-ok (some_or (map_of h p.bpf name) "Map not found") _ w e1 in
      read_typed-dump (detect_map_type k) p.bpf name w e2
