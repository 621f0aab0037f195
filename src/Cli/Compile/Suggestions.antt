-- ===== src/Cli/Compile/Suggestions.antt =====
-- crates/ebpf-assist/src/compile.rs, `improve_error_message`: clang's errors with suggestions.
use ebpf_assist.Prelude.{◌||◌, String, ◌<>◌, List, [], ◌∷◌, if◌then◌else◌, contains}

-- What is appended after a line.
unfoldable pub suggestion : (line : String) → String
unfolding contains
suggestion line =
    if contains line "fatal error: 'bpf/bpf_helpers.h' file not found"
    then "\n  💡 Suggestion: Install libbpf development headers:\n     Ubuntu/Debian: sudo apt install libbpf-dev\n     Fedora: sudo dnf install libbpf-devel\n"
    else if contains line "fatal error: 'linux/bpf.h' file not found"
    then "\n  💡 Suggestion: Install kernel headers:\n     Ubuntu/Debian: sudo apt install linux-headers-$(uname -r)\n     Fedora: sudo dnf install kernel-devel\n"
    else if contains line "unknown target CPU"
    then "\n  💡 Suggestion: Your clang may not support BPF target.\n     Try installing a newer clang version.\n"
    else if contains line "use of undeclared identifier"
    then (if contains line "bpf_printk"
        then "\n  💡 Suggestion: Add at the top of your file:\n     #include <bpf/bpf_helpers.h>\n"
        else if contains line "PT_REGS" || contains line "ctx->"
        then "\n  💡 Suggestion: For accessing function arguments, include:\n     #include <bpf/bpf_tracing.h>\n"
        else "")
    else if contains line "invalid program type"
    then "\n  💡 Suggestion: Check your SEC() annotation matches a valid program type.\n     Common types: kprobe/, kretprobe/, tracepoint/, xdp\n"
    else ""

-- The loop over the lines of the error stream.
unfoldable pub improve_lines : List String → String
unfolding suggestion
improve_lines [] = ""
improve_lines (line ∷ lines) = line <> ("\n" <> (suggestion line <> improve_lines lines))
