-- ===== src/Vm/Firecracker/Life.antt =====
-- crates/ebpf-assist-vm/src/firecracker.rs: whether the process of an instance runs, why it ended, and
-- its shutdown.
use ebpf_assist.Prelude.{
  ℕ, zero, suc, ◌-◌, Bool, true, false, String, ◌<>◌, Option, none, some, Result, ok, err,
  if◌then◌else◌, ltb,
}
use ebpf_assist.Vm.Protocol.{ℤ}
use ebpf_assist.Vm.Crash.{CrashInfo, analyze}
use ebpf_assist.Vm.Firecracker.{Os, FirecrackerInstance, Act, call, action}

module _ (o : Os) where
  open o use {World}

  abbrev or_empty : Option String → String
  or_empty none = ""
  or_empty (some s) = s

  abbrev runs : Result String (Option (Option ℤ)) → Bool
  runs (ok none) = true
  runs _ = false

  unfoldable pub is_running : FirecrackerInstance o → World → World × Bool
  is_running i w = let (w', status) = o.try_wait i.process w in (w', runs status)

  abbrev exited : FirecrackerInstance o → Option ℤ → World → World × Option CrashInfo
  unfolding analyze
  exited i exit_code w =
      let (w1, stdout) = o.take_stdout i.process w in
      let (w2, stderr) = o.take_stderr i.process w1 in
      (w2, some (analyze o.debug_code exit_code (or_empty stdout) (or_empty stderr)))

  abbrev crash_of :
      FirecrackerInstance o → World × Result String (Option (Option ℤ)) → World × Option CrashInfo
  unfolding exited
  crash_of i (w, ok (some exit_code)) = exited i exit_code w
  crash_of i (w, ok none) = (w, none)
  crash_of i (w, err e) = (
    w,
    some (record {
      exit_code = none;
      stdout = "";
      stderr = "Failed to check process status: " <> e;
      likely_cause = "Process status check failed";
    }),
  )

  unfoldable pub check_crash : FirecrackerInstance o → World → World × Option CrashInfo
  unfolding crash_of
  check_crash i w = crash_of i (o.try_wait i.process w)

  -- What `wait_for_exit` returns after it has killed the process.
  abbrev pub killed : CrashInfo
  killed = record {
    exit_code = none;
    stdout = "";
    stderr = "";
    likely_cause = "Process did not exit within timeout, was killed";
  }

  abbrev pub wait_round :
      FirecrackerInstance o
      → (start : ℕ) → World × Option CrashInfo
      → (World → World × Option CrashInfo)
      → World × Option CrashInfo
  wait_round i start (w, some info) again = (w, some info)
  wait_round i start (w, none) again =
      if ltb 10000 (o.now w - start)
      then (o.kill i.process w, some killed)
      else again (o.sleep 100 w)

  -- The loop of `wait_for_exit`, with a number of rounds after which it gives up.
  unfoldable pub wait_rounds :
      ℕ → FirecrackerInstance o → (start : ℕ) → World → World × Option CrashInfo
  unfolding check_crash
  wait_rounds zero i start w = (w, none)
  wait_rounds (suc n) i start w =
      wait_round i start (check_crash i w) λ w'. wait_rounds n i start w'

  unfoldable pub wait_for_exit :
      (rounds : ℕ) → FirecrackerInstance o → World → World × Option CrashInfo
  unfolding wait_rounds
  wait_for_exit rounds i w = wait_rounds rounds i (o.now w) w

  abbrev ensure_killed : FirecrackerInstance o → World × Bool → World
  ensure_killed i (w, running) = if running then o.kill i.process w else w

  unfoldable pub shutdown : FirecrackerInstance o → Act o (Unit {0})
  unfolding call action is_running
  shutdown i w =
      let w1 = o.sleep 2000 (call o i (action o "SendCtrlAltDel") w).0 in
      let w2 = ensure_killed i (is_running i w1) in
      (o.remove_file i.vsock_path (o.remove_file i.socket_path w2), ok tt)
