-- ===== src/Cli/Compile/Templates.antt =====
-- crates/ebpf-assist/src/compile.rs: the templates of new programs.
use ebpf_assist.Prelude.{String, ◌<>◌, Option, none, some, List, [], ◌∷◌, split_once}

-- `target.unwrap_or(default)`
abbrev pub target_or : (default : String) → Option String → String
target_or default none = default
target_or default (some target) = target

-- `format!`
abbrev concat : List String → String
concat [] = ""
concat (s ∷ ss) = s <> concat ss

abbrev pub or_default : Option (String × String) → String × String
or_default none = ("syscalls", "sys_enter_openat")
or_default (some parts) = parts

-- The category and the event of a tracepoint.
unfoldable pub tracepoint_parts : Option String → String × String
unfolding split_once
tracepoint_parts target =
    or_default (split_once b'/' (target_or "syscalls/sys_enter_openat" target))

unfoldable pub kprobe_template : (name : String) (target : Option String) → String
kprobe_template name target = concat (
    "// "
    ∷ name
    ∷ ".c - Kprobe eBPF program\n// Compile: ebpf-assist compile "
    ∷ name
    ∷ ".c\n// Load:    ebpf-assist load "
    ∷ name
    ∷ ".o\n// Attach:  ebpf-assist attach <id> "
    ∷ target_or "do_sys_openat2" target
    ∷ "\n\n#include <linux/bpf.h>\n#include <bpf/bpf_helpers.h>\n#include <bpf/bpf_tracing.h>\n\nchar LICENSE[] SEC(\"license\") = \"GPL\";\n\nSEC(\"kprobe/"
    ∷ target_or "do_sys_openat2" target
    ∷ "\")\nint "
    ∷ name
    ∷ "(struct pt_regs *ctx)\n{\n    __u32 pid = bpf_get_current_pid_tgid() >> 32;\n\n    bpf_printk(\""
    ∷ name
    ∷ ": pid=%d triggered "
    ∷ target_or "do_sys_openat2" target
    ∷ "\", pid);\n\n    return 0;\n}\n"
    ∷ [])

unfoldable pub kretprobe_template : (name : String) (target : Option String) → String
kretprobe_template name target = concat (
    "// "
    ∷ name
    ∷ ".c - Kretprobe eBPF program\n// Compile: ebpf-assist compile "
    ∷ name
    ∷ ".c\n// Load:    ebpf-assist load "
    ∷ name
    ∷ ".o\n// Attach:  ebpf-assist attach <id> "
    ∷ target_or "do_sys_openat2" target
    ∷ "\n\n#include <linux/bpf.h>\n#include <bpf/bpf_helpers.h>\n#include <bpf/bpf_tracing.h>\n\nchar LICENSE[] SEC(\"license\") = \"GPL\";\n\nSEC(\"kretprobe/"
    ∷ target_or "do_sys_openat2" target
    ∷ "\")\nint "
    ∷ name
    ∷ "(struct pt_regs *ctx)\n{\n    __u32 pid = bpf_get_current_pid_tgid() >> 32;\n    long ret = PT_REGS_RC(ctx);\n\n    bpf_printk(\""
    ∷ name
    ∷ ": pid=%d "
    ∷ target_or "do_sys_openat2" target
    ∷ " returned %ld\", pid, ret);\n\n    return 0;\n}\n"
    ∷ [])

unfoldable pub tracepoint_text : (name category event : String) → String
tracepoint_text name category event = concat (
    "// " ∷ name ∷ ".c - Tracepoint eBPF program\n// Compile: ebpf-assist compile " ∷ name
    ∷ ".c\n// Load:    ebpf-assist load " ∷ name ∷ ".o\n// Attach:  ebpf-assist attach <id> "
    ∷ category ∷ ":" ∷ event
    ∷ "\n\n#include <linux/bpf.h>\n#include <bpf/bpf_helpers.h>\n\nchar LICENSE[] SEC(\"license\") = \"GPL\";\n\nSEC(\"tracepoint/"
    ∷ category ∷ "/" ∷ event ∷ "\")\nint " ∷ name
    ∷ "(void *ctx)\n{\n    __u32 pid = bpf_get_current_pid_tgid() >> 32;\n\n    bpf_printk(\""
    ∷ name ∷ ": pid=%d triggered " ∷ event ∷ "\", pid);\n\n    return 0;\n}\n" ∷ [])

unfoldable pub tracepoint_template : (name : String) (target : Option String) → String
unfolding tracepoint_parts tracepoint_text
tracepoint_template name target =
    let (category, event) = tracepoint_parts target in tracepoint_text name category event

unfoldable pub xdp_template : (name : String) → String
xdp_template name = concat (
    "// " ∷ name ∷ ".c - XDP eBPF program\n// Compile: ebpf-assist compile " ∷ name
    ∷ ".c\n// Load:    ebpf-assist load " ∷ name
    ∷ ".o\n// Attach:  ebpf-assist attach <id> eth0  (replace with your interface)\n\n#include <linux/bpf.h>\n#include <linux/if_ether.h>\n#include <linux/ip.h>\n#include <bpf/bpf_helpers.h>\n\nchar LICENSE[] SEC(\"license\") = \"GPL\";\n\nSEC(\"xdp\")\nint "
    ∷ name
    ∷ "(struct xdp_md *ctx)\n{\n    void *data_end = (void *)(long)ctx->data_end;\n    void *data = (void *)(long)ctx->data;\n\n    // Parse Ethernet header\n    struct ethhdr *eth = data;\n    if ((void *)(eth + 1) > data_end)\n        return XDP_PASS;\n\n    // Only process IPv4\n    if (eth->h_proto != __constant_htons(ETH_P_IP))\n        return XDP_PASS;\n\n    // Parse IP header\n    struct iphdr *ip = (void *)(eth + 1);\n    if ((void *)(ip + 1) > data_end)\n        return XDP_PASS;\n\n    bpf_printk(\""
    ∷ name
    ∷ ": packet from %pI4\", &ip->saddr);\n\n    return XDP_PASS;  // XDP_DROP to drop, XDP_TX to bounce back\n}\n"
    ∷ [])

unfoldable pub raw_tracepoint_template : (name : String) (target : Option String) → String
raw_tracepoint_template name target = concat (
    "// "
    ∷ name
    ∷ ".c - Raw tracepoint eBPF program\n// Compile: ebpf-assist compile "
    ∷ name
    ∷ ".c\n// Load:    ebpf-assist load "
    ∷ name
    ∷ ".o\n// Attach:  ebpf-assist attach <id> "
    ∷ target_or "sys_enter" target
    ∷ "\n\n#include <linux/bpf.h>\n#include <bpf/bpf_helpers.h>\n\nchar LICENSE[] SEC(\"license\") = \"GPL\";\n\nSEC(\"raw_tracepoint/"
    ∷ target_or "sys_enter" target
    ∷ "\")\nint "
    ∷ name
    ∷ "(struct bpf_raw_tracepoint_args *ctx)\n{\n    __u32 pid = bpf_get_current_pid_tgid() >> 32;\n\n    bpf_printk(\""
    ∷ name
    ∷ ": pid=%d triggered "
    ∷ target_or "sys_enter" target
    ∷ "\", pid);\n\n    return 0;\n}\n"
    ∷ [])

pub data TemplateType : Type 0 where
  kprobe kretprobe tracepoint xdp raw_tracepoint : TemplateType

unfoldable pub generate_template : TemplateType → (name : String) (target : Option String) → String
unfolding kprobe_template kretprobe_template tracepoint_template xdp_template
    raw_tracepoint_template
generate_template kprobe name target = kprobe_template name target
generate_template kretprobe name target = kretprobe_template name target
generate_template tracepoint name target = tracepoint_template name target
generate_template xdp name target = xdp_template name
generate_template raw_tracepoint name target = raw_tracepoint_template name target
