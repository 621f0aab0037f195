-- ===== src/Vm/Firecracker.antt =====
-- crates/ebpf-assist-vm/src/firecracker.rs, `FirecrackerInstance`: the process of a microVM and the
-- calls of its API. The file system, processes, the clock and hyper are the fields of `Os`.
pub mod Start
pub mod Life
pub mod Boot
pub mod Exit
pub mod Tests
use ebpf_assist.Prelude.{
  ℕ, zero, suc, ◌-◌, Bool, true, false, not, List, [], ◌∷◌, String, ◌<>◌, Option, none, some,
  Result, ok, err, if◌then◌else◌, ltb,
}
use ebpf_assist.Json.{Json, obj, string, number, bool}
use ebpf_assist.Vm.Protocol.{
  ℤ, VmError, firecracker_not_found, kernel_not_found, rootfs_not_found, boot_failed,
  firecracker_api,
}
use ebpf_assist.Vm.Crash.{CrashInfo, analyze}

-- An HTTP response: `status.is_success()`, the `Display` of the status, and the body.
pub record Reply : Type 0 where
  pub is_success : Bool
  pub status : String
  pub body : String

pub record Os : Type 1 where
  pub World : Type 0
  pub exists : String → World → Bool
  pub create_dir_all : String → World → World × Result VmError (Unit {0})
  pub remove_file : String → World → World
  -- `UnixStream::connect(path).await.is_ok()`
  pub connects : String → World → World × Bool
  -- `Command::new(program).args(args).spawn()`, `try_wait`, `kill`, and a pipe read to its end
  pub Process : Type 0
  pub spawn : String → List String → World → World × Result VmError Process
  pub try_wait : Process → World → World × Result String (Option (Option ℤ))
  pub kill : Process → World → World
  pub take_stdout : Process → World → World × Option String
  pub take_stderr : Process → World → World × Option String
  -- a PUT of a JSON body on the API socket, up to the response
  pub put : (socket_path path : String) → Json → World → World × Result VmError Reply
  -- milliseconds
  pub sleep : ℕ → World → World
  pub now : World → ℕ
  -- the `Debug` of an exit code
  pub debug_code : Option ℤ → String

-- `VmConfig` of config.rs
pub record VmConfig : Type 0 where
  pub vcpu_count : ℕ
  pub mem_size_mb : ℕ
  pub kernel_path : String
  pub rootfs_path : String
  pub firecracker_path : String
  pub boot_args : String
  pub vsock_port : ℕ

module _ (o : Os) where
  open o use {World, Process}

  -- A method of an instance.
  abbrev pub Act : Type 0 → Type 0
  Act A = World → World × Result VmError A

  pub record FirecrackerInstance : Type 0 where
    pub process : Process
    pub socket_path : String
    pub vsock_path : String
    pub config : VmConfig

  abbrev pub and_then :
      {A B : Type 0} → World × Result VmError A → (A → Act B) → World × Result VmError B
  and_then (w, ok a) f = f a w
  and_then (w, err e) f = (w, err e)

  abbrev judge_reply : World × Result VmError Reply → World × Result VmError String
  judge_reply (w, ok reply) =
      if reply.is_success
      then (w, ok reply.body)
      else (w, err (firecracker_api ("HTTP " <> (reply.status <> (": " <> reply.body)))))
  judge_reply (w, err e) = (w, err e)

  unfoldable pub api_request : FirecrackerInstance → (path : String) → Json → Act String
  api_request i path body w = judge_reply (o.put i.socket_path path body w)

  -- The path and the body of each call.
  unfoldable pub boot_source : FirecrackerInstance → String × Json
  boot_source i = (
    "/boot-source",
    obj (
        ("kernel_image_path", string i.config.kernel_path)
        ∷ ("boot_args", string i.config.boot_args)
        ∷ []),
  )

  unfoldable pub root_drive : FirecrackerInstance → String × Json
  root_drive i = (
    "/drives/rootfs",
    obj (
        ("drive_id", string "rootfs")
        ∷ ("path_on_host", string i.config.rootfs_path)
        ∷ ("is_root_device", bool true)
        ∷ ("is_read_only", bool false)
        ∷ []),
  )

  unfoldable pub machine_config : FirecrackerInstance → String × Json
  machine_config i = (
    "/machine-config",
    obj (
        ("vcpu_count", number i.config.vcpu_count)
        ∷ ("mem_size_mib", number i.config.mem_size_mb)
        ∷ []),
  )

  unfoldable pub vsock_device : FirecrackerInstance → String × Json
  vsock_device i =
      ("/vsock", obj (("guest_cid", number 3) ∷ ("uds_path", string i.vsock_path) ∷ []))

  unfoldable pub action : (action_type : String) → String × Json
  action action_type = ("/actions", obj (("action_type", string action_type) ∷ []))

  -- A call whose body is not looked at
  unfoldable pub call : FirecrackerInstance → String × Json → Act (Unit {0})
  unfolding api_request
  call i (path, body) w = and_then (api_request i path body w) λ _ w'. (w', ok tt)

  unfoldable pub boot : FirecrackerInstance → Act (Unit {0})
  unfolding call boot_source root_drive machine_config vsock_device action
  boot i w = and_then (call i (boot_source i) w) λ _ w1. and_then (call i (root_drive i) w1) λ _ w2.
      and_then (call i (machine_config i) w2) λ _ w3.
        and_then (call i (vsock_device i) w3)
          λ _ w4. and_then (call i (action "InstanceStart") w4) λ _ w5. (w5, ok tt)
