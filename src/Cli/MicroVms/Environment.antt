-- ===== src/Cli/MicroVms/Environment.antt =====
-- `vm init` of crates/ebpf-assist/src/vm.rs: what it finds of the environment of the microVMs.
use ebpf_assist.Prelude.{Bool, not, ◌&&◌, ◌||◌, String, ◌<>◌, List, [], ◌∷◌, ◌++◌, if◌then◌else◌}
use ebpf_assist.Json.{Json, obj, bool, string}
use ebpf_assist.Cli.Output.{Run, Line, out, prints_either, repeat}
use ebpf_assist.Cli.MicroVms.{Files, or_here}

pub record Environment : Type 0 where
  pub kvm_available : Bool
  pub kvm_writable : Bool
  pub data_dir : String
  pub firecracker_exists : Bool
  pub kernel_exists : Bool
  pub rootfs_exists : Bool

unfoldable pub environment : {World : Type 0} → Files World → Environment
environment files =
    let data_dir = or_here files.data_local_dir <> "/ebpf-assist" in
    record {
      kvm_available = files.exists "/dev/kvm";
      kvm_writable = files.exists "/dev/kvm" && files.can_open "/dev/kvm";
      data_dir = data_dir;
      firecracker_exists = files.is_file (data_dir <> "/firecracker");
      kernel_exists = files.is_file (data_dir <> "/vmlinux");
      rootfs_exists = files.is_file (data_dir <> "/rootfs.ext4");
    }

abbrev pub is_ready : Environment → Bool
is_ready e =
    e.kvm_available
    && (e.kvm_writable && (e.firecracker_exists && (e.kernel_exists && e.rootfs_exists)))

abbrev asset : (path : String) (exists : Bool) → Json
asset path exists = obj (("path", string path) ∷ ("exists", bool exists) ∷ [])

abbrev pub environment_document : Environment → Json
environment_document e = obj (
    ("kvm_available", bool e.kvm_available)
    ∷ ("kvm_writable", bool e.kvm_writable)
    ∷ ("data_dir", string e.data_dir)
    ∷ (
      "assets",
      obj (
          ("firecracker", asset (e.data_dir <> "/firecracker") e.firecracker_exists)
          ∷ ("kernel", asset (e.data_dir <> "/vmlinux") e.kernel_exists)
          ∷ ("rootfs", asset (e.data_dir <> "/rootfs.ext4") e.rootfs_exists)
          ∷ []),
    )
    ∷ ("ready", bool (is_ready e))
    ∷ [])

abbrev kvm_status : Environment → String
kvm_status e =
    if e.kvm_available && e.kvm_writable
    then "✓ Available and accessible"
    else if e.kvm_available
    then "⚠ Available but not accessible (check permissions)"
    else "✗ Not available (KVM not enabled)"

abbrev presence : Bool → String
presence exists = if exists then "✓ Present" else "✗ Missing"

abbrev advice : Environment → List Line
advice e =
    if not e.firecracker_exists || (not e.kernel_exists || not e.rootfs_exists)
    then out "Setup required. Run:"
      ∷ out "  ./scripts/vm/setup-vm.sh"
      ∷ out ""
      ∷ out "This will download Firecracker and a compatible kernel,"
      ∷ out "and build the rootfs with the guest agent."
      ∷ []
    else if not e.kvm_available || not e.kvm_writable
    then out "KVM access required. Options:"
      ∷ out "  1. Enable KVM: modprobe kvm && modprobe kvm_intel (or kvm_amd)"
      ∷ out "  2. Add your user to kvm group: sudo usermod -aG kvm $USER"
      ∷ out "  3. Or run with sudo for isolated operations"
      ∷ []
    else out "✓ MicroVM environment ready!"
      ∷ out ""
      ∷ out "Usage:"
      ∷ out "  ebpf-assist load --isolate <program.o>  # Load in isolated VM"
      ∷ out "  ebpf-assist vm list                     # List running VMs"
      ∷ out "  ebpf-assist vm stop <vm-id>             # Stop a VM"
      ∷ []

abbrev environment_lines : Environment → List Line
unfolding repeat
environment_lines e =
    (out "MicroVM Environment Status"
      ∷ out (repeat 50 "=")
      ∷ out ""
      ∷ out ("KVM:         " <> kvm_status e)
      ∷ out ""
      ∷ out ("Assets in " <> (e.data_dir <> ":"))
      ∷ out ("  Firecracker: " <> presence e.firecracker_exists)
      ∷ out ("  Kernel:      " <> presence e.kernel_exists)
      ∷ out ("  Rootfs:      " <> presence e.rootfs_exists)
      ∷ out ""
      ∷ [])
    ++ advice e

unfoldable pub init : {World : Type 0} → Files World → (json_output : Bool) → Run
unfolding environment environment_lines
init files json_output =
    let e = environment files in
    prints_either json_output (environment_document e) (environment_lines e)
