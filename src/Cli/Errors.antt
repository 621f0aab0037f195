-- ===== src/Cli/Errors.antt =====
-- crates/ebpf-assist/src/commands.rs, `improve_error`, and the branch that every command has for an
-- error of the daemon.
use ebpf_assist.Prelude.{
  Bool, true, false, List, [], ◌∷◌, ◌++◌, ◌||◌, String, ◌<>◌, if◌then◌else◌, contains,
}
use ebpf_assist.Json.{Json, obj, string}
use ebpf_assist.Common.{ErrorCode, debug_code}
use ebpf_assist.Cli.Output.{Run, doc, exit_failure, bail}

-- What is appended for a code.
unfoldable pub advice : ErrorCode → (message : String) → String
unfolding contains
advice ErrorCode.not_found message =
    if contains message "program"
    then "\n\n💡 Suggestion: Use 'ebpf-assist list' to see loaded programs."
    else if contains message "not found"
    then "\n\n💡 File not found. Did you compile the program?\n   Run: ebpf-assist compile <source.c>"
    else ""
advice ErrorCode.program_not_found message =
    "\n\n💡 Suggestion: Use 'ebpf-assist list' to see loaded programs."
advice ErrorCode.auth_required message =
    "\n\n💡 Run 'ebpf-assist unlock' to authenticate.\n   This will prompt for your password (cached for 15 minutes)."
advice ErrorCode.auth_denied message =
    "\n\n💡 Authentication was denied. Make sure you have permission to manage eBPF programs."
advice ErrorCode.verifier_error message =
    "\n\n💡 BPF verifier rejected the program. Common issues:\n   - Unbounded loops (use bounded loops with #pragma unroll)\n   - Null pointer dereference (add null checks)\n   - Out-of-bounds access (check array bounds)\n   - Uninitialized variables (initialize before use)"
advice ErrorCode.permission_denied message =
    if contains message "kprobe" || contains message "function"
    then "\n\n💡 Kprobe attach failed. Common issues:\n   - Function doesn't exist: check /proc/kallsyms\n   - Try with __x64_sys_ prefix for syscalls\n   - Example: 'do_sys_openat2' or '__x64_sys_openat'"
    else if contains message "tracepoint"
    then "\n\n💡 Tracepoint attach failed. Format: category:name\n   Available: ls /sys/kernel/debug/tracing/events/\n   Example: 'syscalls:sys_enter_openat'"
    else if contains message "xdp" || contains message "interface"
    then "\n\n💡 XDP attach failed. Make sure:\n   - Interface exists: ip link show\n   - Interface supports XDP: not all do"
    else ""
advice ErrorCode.already_attached message =
    "\n\n💡 Program is already attached. Detach first with: ebpf-assist detach <id>"
advice ErrorCode.not_attached message =
    "\n\n💡 Program is not attached. Attach first with: ebpf-assist attach <id> <target>"
advice ErrorCode.policy_violation message =
    "\n\n💡 This program type is blocked by security policy.\n   Allowed types: kprobe, kretprobe, uprobe, uretprobe, tracepoint, perf_event\n   Warn types: xdp, tc, socket_filter\n   Blocked: lsm, struct_ops, cgroup"
advice _ message = ""

unfoldable pub improve_error : ErrorCode → String → String
unfolding advice debug_code
improve_error code message = "[" <> (debug_code code <> ("] " <> (message <> advice code message)))

-- The branch `Response::Error`, with the fields that a command puts before the error.
unfoldable pub report_error :
    (json_output : Bool) → List (String × Json) → (message : String) → ErrorCode → Run
unfolding improve_error
report_error true first message code = record {
  lines =
      doc (obj (first ++ ("error", string message) ∷ ("code", string (debug_code code)) ∷ [])) ∷ [];
  ended = exit_failure;
}
report_error false first message code = bail (improve_error code message)
