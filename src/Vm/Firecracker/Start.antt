-- ===== src/Vm/Firecracker/Start.antt =====
-- crates/ebpf-assist-vm/src/firecracker.rs: `FirecrackerInstance::start`, the wait for the API's socket,
-- and the drop of an instance.
use ebpf_assist.Prelude.{
  ℕ, zero, suc, Bool, true, false, not, [], ◌∷◌, String, ◌<>◌, Option, none, some, Result, ok, err,
  if◌then◌else◌,
}
use ebpf_assist.Vm.Protocol.{
  VmError, firecracker_not_found, kernel_not_found, rootfs_not_found, boot_failed,
}
use ebpf_assist.Vm.Firecracker.{Os, VmConfig, FirecrackerInstance, Act, and_then}

module _ (o : Os) where
  open o use {World, Process}

  -- `wait_for_socket`: the attempts that are left
  abbrev next_try :
      World × Bool → (World → World × Result VmError (Unit {0})) → World × Result VmError (Unit {0})
  next_try (w, true) again = (w, ok tt)
  next_try (w, false) again = again (o.sleep 100 w)

  abbrev attempt : (socket_path : String) → World → World × Bool
  attempt socket_path w = if o.exists socket_path w then o.connects socket_path w else (w, false)

  unfoldable pub wait_loop : ℕ → (socket_path : String) → Act o (Unit {0})
  wait_loop zero socket_path w = (w, err (boot_failed "Firecracker socket not available after 5s"))
  wait_loop (suc n) socket_path w =
      next_try (attempt socket_path w) λ w'. wait_loop n socket_path w'

  unfoldable pub wait_for_socket : FirecrackerInstance o → Act o (Unit {0})
  unfolding wait_loop
  wait_for_socket i = wait_loop 50 i.socket_path

  -- The first file of the configuration that is not there
  unfoldable pub missing : VmConfig → World → Option VmError
  missing config w =
      if not (o.exists config.firecracker_path w)
      then some firecracker_not_found
      else if not (o.exists config.kernel_path w)
      then some (kernel_not_found config.kernel_path)
      else if not (o.exists config.rootfs_path w)
      then some (rootfs_not_found config.rootfs_path)
      else none

  abbrev instance_of : VmConfig → (runtime_dir : String) → Process → FirecrackerInstance o
  instance_of config runtime_dir process = record {
    process = process;
    socket_path = runtime_dir <> "/firecracker.sock";
    vsock_path = runtime_dir <> "/vsock.sock";
    config = config;
  }

  -- `Drop`
  unfoldable pub drop_instance : FirecrackerInstance o → World → World
  drop_instance i w = o.kill i.process w

  -- An instance whose socket does not come is dropped.
  abbrev awaited :
      FirecrackerInstance o
      → World × Result VmError (Unit {0})
      → World × Result VmError (FirecrackerInstance o)
  unfolding drop_instance
  awaited i (w, ok _) = (w, ok i)
  awaited i (w, err e) = (drop_instance i w, err e)

  abbrev launch : VmConfig → (runtime_dir : String) → Act o (FirecrackerInstance o)
  unfolding awaited wait_for_socket
  launch config runtime_dir w =
      let w' =
        o.remove_file (runtime_dir <> "/vsock.sock")
          (o.remove_file (runtime_dir <> "/firecracker.sock") w) in
      and_then o
        (o.spawn config.firecracker_path ("--api-sock" ∷ (runtime_dir <> "/firecracker.sock") ∷ [])
          w')
        λ process w''.
          let i = instance_of config runtime_dir process in awaited i (wait_for_socket i w'')

  abbrev start_unless : Option VmError → VmConfig → (vm_id : String) → Act o (FirecrackerInstance o)
  unfolding launch
  start_unless (some e) config vm_id w = (w, err e)
  start_unless none config vm_id w =
      let runtime_dir = "/tmp/ebpf-assist-vm/" <> vm_id in
      and_then o (o.create_dir_all runtime_dir w) λ _ w'. launch config runtime_dir w'

  unfoldable pub start : VmConfig → (vm_id : String) → Act o (FirecrackerInstance o)
  unfolding missing launch
  start config vm_id w = start_unless (missing config w) config vm_id w
