-- ===== src/Cli/MicroVms/Ready.antt =====
-- What `vm init` says of the environment, and what `load --isolate` needs of it.
use ebpf_assist.Prelude.{
  Bool, true, not, ◌&&◌, ◌||◌, String, ℕ, some, none, ◌≡◌, ◌↔◌, ◌∷◌, [], refl, ap, if◌then◌else◌,
}
use native.Mathlib.Omega.{arith}
use ebpf_assist.Json.{Json, get, get_field, bool}
use ebpf_assist.Vm.Machine.{Machine}
use ebpf_assist.Cli.Output.{prints, doc}
use ebpf_assist.Cli.MicroVms.{Files, not_ready}
use ebpf_assist.Cli.MicroVms.Environment.{environment, environment_document, init}

-- The two tests, over what they find.
agree :
    (f k r v c : Bool) (a b : String)
    → ((v && ((v && c) && (f && (k && r)))) ≡ true) ↔ (
        ((if not f || (not k || not r) then some a else if not v then some b else none) ≡ none)
        × (c ≡ true))
agree f k r v c a b = ground arith

bool_injective : {b c : Bool} → some (bool b) ≡ some (bool c) → b ≡ c
bool_injective e = cc

-- `vm init --json` prints a document whose field `ready` is true if and only if nothing is missing
-- that `load --isolate` checks, whatever its program, and `/dev/kvm` opens for reading and writing.
pub init-not_ready :
    (m : Machine) (show : ℕ → String) (vm_config : m.VmConfig) (files : Files m.World)
    (path : String)
    → (d : Json) × (init files true ≡ prints (doc d ∷ []))
      × ((get d "ready" ≡ some (bool true))
          ↔ ((not_ready m show vm_config files path ≡ none) × (files.can_open "/dev/kvm" ≡ true)))
unfolding init environment get get_field not_ready
init-not_ready m show vm_config files path =
    let both =
      agree (environment files).firecracker_exists (environment files).kernel_exists
        (environment files).rootfs_exists (files.exists "/dev/kvm") (files.can_open "/dev/kvm") _
        _ in
    (
      environment_document (environment files),
      refl,
      ((λ e. both.0 (bool_injective e)), λ p. ap (λ b. some (bool b)) (both.1 p)),
    )
