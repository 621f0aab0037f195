-- ===== src/Vm/Config.antt =====
-- crates/ebpf-assist-vm/src/config.rs: the default configurations, their builders, and the search for
-- Firecracker. The environment, the crate `dirs` and the crate `which` are the fields of `Paths`.
use ebpf_assist.Prelude.{
  ℕ, Bool, true, String, ◌<>◌, List, [], ◌∷◌, Option, none, some, if◌then◌else◌, ◌≡◌, ◌⊎◌, inl, inr,
  Bool-cases, arith,
}
use ebpf_assist.Vm.Firecracker.{VmConfig}
use ebpf_assist.Vm.Machine.{Machine}
use ebpf_assist.Vm.Pool.{PoolConfig}

pub record Paths : Type 0 where
  -- `std::env::var("FIRECRACKER_PATH")`
  pub firecracker_path : Option String
  pub data_local_dir : Option String
  pub home_dir : Option String
  pub exists : String → Bool
  pub which : String → Option String

module _ (e : Paths) where
  -- The first of the places that exists, or else what the next step of the search finds.
  abbrev first_or : List String → Option String → Option String
  first_or [] rest = rest
  first_or (p ∷ ps) rest = if e.exists p then some p else first_or ps rest

  abbrev at : Option String → (below : String) → List String
  at none below = []
  at (some dir) below = (dir <> below) ∷ []

  -- The places that are searched before PATH, in their order.
  unfoldable pub places : List String
  places = elim e.firecracker_path [ none ↦ elsewhere | some path ↦ path ∷ elsewhere ]
    where
      user : List String
      user =
          "/usr/local/bin/firecracker"
          ∷ "/usr/bin/firecracker"
          ∷ at e.home_dir "/.local/bin/firecracker"

      elsewhere : List String
      elsewhere = elim e.data_local_dir [
        | none ↦ user
        | some dir ↦ (dir <> "/ebpf-assist/firecracker") ∷ user
      ]

  unfoldable pub find_firecracker : Option String
  unfolding places
  find_firecracker = first_or places (e.which "firecracker")

  abbrev or_tmp : Option String → String
  or_tmp none = "/tmp"
  or_tmp (some dir) = dir

  abbrev or_name : Option String → String
  or_name none = "firecracker"
  or_name (some path) = path

  unfoldable pub default_config : VmConfig
  unfolding find_firecracker
  default_config =
      let data_dir = or_tmp e.data_local_dir <> "/ebpf-assist" in
      record {
        vcpu_count = 1;
        mem_size_mb = 128;
        kernel_path = data_dir <> "/vmlinux";
        rootfs_path = data_dir <> "/rootfs.ext4";
        firecracker_path = or_name find_firecracker;
        boot_args = "console=ttyS0 reboot=k panic=1 pci=off";
        vsock_port = 5000;
      }

  unfoldable pub with_paths : (kernel rootfs firecracker : String) → VmConfig
  unfolding default_config
  with_paths kernel rootfs firecracker = record default_config {
    kernel_path = kernel;
    rootfs_path = rootfs;
    firecracker_path = firecracker;
  }

  first_or-exists :
      (ps : List String) (rest : Option String) {found : String}
      → first_or ps rest ≡ some found
      → (e.exists found ≡ true) ⊎ (rest ≡ some found)
  first_or-exists [] rest {found} same = inr same
  first_or-exists (p ∷ ps) rest {found} same = elim (Bool-cases (e.exists p)) [
    | inl there ↦ inl (ground arith)
    | inr absent ↦ first_or-exists ps rest (ground arith)
  ]

-- What the search finds is there, or the crate `which` has found it on PATH.
pub find_firecracker-exists :
    (e : Paths) {found : String}
    → find_firecracker e ≡ some found
    → (e.exists found ≡ true) ⊎ (e.which "firecracker" ≡ some found)
unfolding find_firecracker
find_firecracker-exists e same = first_or-exists e (places e) (e.which "firecracker") same

unfoldable pub with_memory : VmConfig → (mb : ℕ) → VmConfig
with_memory config mb = record config { mem_size_mb = mb }

unfoldable pub with_vcpus : VmConfig → (count : ℕ) → VmConfig
with_vcpus config count = record config { vcpu_count = count }

-- `PoolConfig::default`, over a configuration of one VM, and its builders. The idle timeout is in
-- seconds.
module _ (m : Machine) where
  unfoldable pub default_pool : m.VmConfig → PoolConfig m
  default_pool config = record {
    min_warm = 0;
    max_warm = 2;
    max_total = 5;
    idle_timeout = 300;
    vm_config = config;
  }

  unfoldable pub with_vm_config : PoolConfig m → m.VmConfig → PoolConfig m
  with_vm_config pool config = record pool { vm_config = config }

  unfoldable pub with_sizes : PoolConfig m → (min_warm max_warm max_total : ℕ) → PoolConfig m
  with_sizes pool min_warm max_warm max_total = record pool {
    min_warm = min_warm;
    max_warm = max_warm;
    max_total = max_total;
  }
