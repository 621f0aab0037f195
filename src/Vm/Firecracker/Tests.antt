-- ===== src/Vm/Firecracker/Tests.antt =====
-- A Firecracker in a world that is a clock in milliseconds.
use ebpf_assist.Prelude.{ℕ, ◌+◌, true, false, none, ok, ◌≢◌, arith, if◌then◌else◌, str_eq}
use ebpf_assist.Vm.Firecracker.{Os, FirecrackerInstance, boot}
use ebpf_assist.Vm.Firecracker.Life.{check_crash, wait_for_exit}
use ebpf_assist.Vm.Firecracker.Boot.{Ended, boot_calls, boot-Ended}
use ebpf_assist.Vm.Firecracker.Exit.{wait_for_exit-some}

-- The process does not end by itself, and the API refuses the vsock device.
abbrev os : Os
os = record {
  World = ℕ;
  exists = λ path w. true;
  create_dir_all = λ path w. (w, ok tt);
  remove_file = λ path w. w;
  connects = λ path w. (w, true);
  Process = ℕ;
  spawn = λ program args w. (w, ok 7);
  try_wait = λ process w. (w, ok none);
  kill = λ process w. w;
  take_stdout = λ process w. (w, none);
  take_stderr = λ process w. (w, none);
  put = λ socket_path path body w. (
    w + 1,
    ok (record {
      is_success = if str_eq path "/vsock" then false else true;
      status = "400 Bad Request";
      body = "";
    }),
  );
  sleep = λ n w. w + n;
  now = λ w. w;
  debug_code = λ code. "code";
}

abbrev machine : FirecrackerInstance os
machine = record {
  process = 7;
  socket_path = "/tmp/ebpf-assist-vm/a/firecracker.sock";
  vsock_path = "/tmp/ebpf-assist-vm/a/vsock.sock";
  config = record {
    vcpu_count = 1;
    mem_size_mb = 128;
    kernel_path = "vmlinux";
    rootfs_path = "rootfs.ext4";
    firecracker_path = "firecracker";
    boot_args = "console=ttyS0";
    vsock_port = 5000;
  };
}

boot-Ended_example : Ended os machine (boot_calls os machine) 0 (boot os machine 0)
boot-Ended_example = boot-Ended os machine 0

wait_for_exit-some_example : (wait_for_exit os 103 machine 5).1 ≢ none
unfolding check_crash
wait_for_exit-some_example = wait_for_exit-some os machine 5 (λ w. omega arith) (λ w. omega arith)
