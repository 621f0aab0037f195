-- ===== src/Vm/Crash.antt =====
-- crates/ebpf-assist-vm/src/firecracker.rs, `CrashInfo`: why a VM that died may have died.
use ebpf_assist.Prelude.{
  Bool, false, ◌||◌, String, ◌<>◌, Option, none, some, if◌then◌else◌, nat_eq, contains,
}
use ebpf_assist.Vm.Protocol.{ℤ, pos, negsuc}

pub record CrashInfo : Type 0 where
  pub exit_code : Option ℤ
  pub stderr : String
  pub stdout : String
  pub likely_cause : String

abbrev pub was_killed : Option ℤ → Bool
was_killed none = false
was_killed (some (pos n)) = nat_eq n 137
was_killed (some (negsuc n)) = false

-- The last two branches. `debug` is the `Debug` of an exit code.
abbrev by_code : (debug : Option ℤ → String) → Option ℤ → String
by_code debug (some code) = "Process exited with code " <> debug (some code)
by_code debug none = "Unknown cause - check stdout/stderr for details"

unfoldable pub likely_cause :
    (debug : Option ℤ → String) → Option ℤ → (stdout stderr : String) → String
unfolding contains
likely_cause debug exit_code stdout stderr =
    if contains stderr "KVM_RUN failed"
    then "KVM execution error - check that KVM is enabled and accessible"
    else if contains stderr "Permission denied"
    then "Permission error - check KVM device permissions"
    else if contains stderr "SIGKILL" || was_killed exit_code
    then "VM was killed (possibly OOM killer or external signal)"
    else if contains stderr "panic" || contains stderr "kernel panic"
    then "Kernel panic - the eBPF program may have caused a kernel crash"
    else if contains stderr "BPF" || contains stderr "bpf"
    then "BPF-related error - the eBPF program likely caused an issue"
    else if contains stdout "Segmentation fault" || contains stderr "Segmentation fault"
    then "Segmentation fault in guest agent or eBPF program"
    else by_code debug exit_code

unfoldable pub analyze :
    (debug : Option ℤ → String) → Option ℤ → (stdout stderr : String) → CrashInfo
unfolding likely_cause
analyze debug exit_code stdout stderr = record {
  exit_code = exit_code;
  stderr = stderr;
  stdout = stdout;
  likely_cause = likely_cause debug exit_code stdout stderr;
}
