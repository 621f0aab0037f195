-- ===== src/Daemon/Tests/Data.antt =====
-- Runs of the loader, of the codec of keys and values, and of the maps.
use ebpf_assist.Prelude.{
  ℕ_eq, ◌≤◌, true, false, List, [], ◌∷◌, ◌↔◌, length, All, none, some, ok, refl, arith, ◌≡◌, ◌≢◌,
}
use ebpf_assist.Table
use ebpf_assist.Common.{ProgramType, allow, deny, default_policy, MapEntry}
use ebpf_assist.Daemon.Keys.{parse_key, hex8}
use ebpf_assist.Daemon.Keys.Hex.{parse_key-hex8_ne}
use ebpf_assist.Daemon.Loader.{
  Loader, LoadResult, policy_check, select_name, program, program_names, detect_program, load,
}
use ebpf_assist.Daemon.Loader
use ebpf_assist.Daemon.Loader.Loaded.{IsLoaded, load-IsLoaded}
use ebpf_assist.Daemon.Loader.Policy.{load_policy}
use ebpf_assist.Daemon.Maps
use ebpf_assist.Daemon.Maps.{read_array_map, read_map}
use ebpf_assist.Daemon.Maps.Dump.{IsReadable, read_array_map-dump}
use ebpf_assist.Daemon.Tests.{DemoWorld, demo, world_at}

parse_key-hex8_ne_example : parse_key (hex8 16) ≢ ok 16
parse_key-hex8_ne_example = parse_key-hex8_ne 16 (omega arith)

abbrev quiet : DemoWorld
quiet = world_at 0 (true, false)

-- The loader and the result of a load of the kernel probe.
abbrev empty : Loader demo
empty = Loader.new demo

abbrev one : Loader demo
one = record {
  programs =
      (1, record { info = Loader.fresh_info demo 1 "probe" ProgramType.k_probe "a.o"; bpf = "a.o" })
      ∷ [];
  next_id = 2;
}

abbrev loaded : LoadResult demo
loaded = record {
  info = Loader.fresh_info demo 1 "probe" ProgramType.k_probe "a.o";
  warning = none;
}

load_policy_example :
    (default_policy loaded.info.program_type ≢ deny)
    × ((loaded.warning ≡ none) ↔ (default_policy loaded.info.program_type ≡ allow))
unfolding load Table.get default_policy Loader.detect_type Table.insert Loader.new
load_policy_example = load_policy demo empty "a.o" (some "probe") quiet one loaded refl

load-IsLoaded_example : IsLoaded demo empty "a.o" (some "probe") one loaded
unfolding load Table.get default_policy Loader.detect_type Table.insert Loader.new
load-IsLoaded_example = load-IsLoaded demo empty "a.o" (some "probe") quiet refl

abbrev dump : List MapEntry
dump = Maps.array_entry 0 0 ∷ Maps.array_entry 1 2 ∷ Maps.array_entry 2 4 ∷ []

read_array_map-dump_example : (length dump ≤ 100) × All (IsReadable demo "a.o" "counts" quiet) dump
unfolding read_array_map
read_array_map-dump_example = read_array_map-dump demo "a.o" "counts" quiet refl
