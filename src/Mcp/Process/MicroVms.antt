-- ===== src/Mcp/Process/MicroVms.antt =====
-- crates/ebpf-assist-mcp/src/tools.rs: the tools that run `vm init`, `vm list` and `vm stop` of the
-- command line client.
use ebpf_assist.Prelude.{Bool, ◌&&◌, String, ◌<>◌, List, [], ◌∷◌, Option, none, some, if◌then◌else◌}
use ebpf_assist.Json.{Json, get, as_bool, as_array, read_or}
use ebpf_assist.Daemon.Io.{Io, lift, pure, ◌>>=◌}
use ebpf_assist.Cli.Output.{pad, repeat}
use ebpf_assist.Mcp.{Outside, Output}
use ebpf_assist.Mcp.Protocol.{ToolCallResult, text, failure}
use ebpf_assist.Mcp.Process.{World, run_cli, both, str_or}

abbrev flag : Option Json → Bool
flag j = read_or Bool.false as_bool j

-- `.and_then(|a| a.get(key))`
abbrev at : Option Json → String → Option Json
unfolding get
at none key = none
at (some j) key = get j key

-- `.and_then(|v| v.as_object())`, which keeps an object as it is
abbrev as_object : Option Json → Option Json
as_object (some (Json.object fs)) = some (Json.object fs)
as_object _ = none

abbrev presence : Bool → String
presence b = if b then "✓ Present" else "✗ Missing"

abbrev kvm_status : (kvm writable : Bool) → String
kvm_status kvm writable =
    if kvm && writable
    then "✓ Available"
    else if kvm
    then "⚠ Available but not accessible"
    else "✗ Not available"

abbrev exists : Json → String → Bool
unfolding at get
exists j name = flag (at (at (as_object (get j "assets")) name) "exists")

abbrev init_text : Json → String
unfolding exists get
init_text j =
    "MicroVM Environment Status:\n\nKVM:        "
    <> (kvm_status (flag (get j "kvm_available")) (flag (get j "kvm_writable"))
        <> ("\nFirecracker: "
            <> (presence (exists j "firecracker")
                <> ("\nKernel:      "
                    <> (presence (exists j "kernel")
                        <> ("\nRootfs:      "
                            <> (presence (exists j "rootfs")
                                <> ("\n"
                                    <> (if flag (get j "ready")
                                        then "\n✓ MicroVM environment ready!\n\nUse ebpf_load with isolate=true for safe testing."
                                        else "\n\n⚠ Setup required. Run: ./scripts/vm/setup-vm.sh")))))))))

-- `{:<36} {:<15}\n`
abbrev vm_row : String → String → String
unfolding pad
vm_row id state = pad 36 id <> (" " <> (pad 15 state <> "\n"))

abbrev vm_rows : List Json → String
unfolding vm_row get
vm_rows [] = ""
vm_rows (vm ∷ vms) = vm_row (str_or "?" vm "id") (str_or "?" vm "state") <> vm_rows vms

abbrev list_text : List Json → String
unfolding vm_row vm_rows repeat
list_text [] = "No MicroVMs running.\n\nStart one with: ebpf_load(path=\"...\", isolate=true)"
list_text (vm ∷ vms) =
    "Running MicroVMs:\n\n"
    <> (vm_row "VM ID" "STATE" <> (repeat 55 "-" <> ("\n" <> vm_rows (vm ∷ vms))))

abbrev array_at : Option Json → Option (List Json)
array_at none = none
array_at (some j) = as_array j

module _ (o : Outside) where
  unfoldable pub init_result : Output → ToolCallResult
  unfolding text failure init_text
  init_result out =
      if out.is_success
      then elim (o.parse_value out.stdout) [ none ↦ text (both out) | some j ↦ text (init_text j) ]
      else failure (both out)

  unfoldable pub tool_vm_init : Io (World o) ToolCallResult
  unfolding run_cli init_result
  tool_vm_init =
      run_cli o "vm init" ("vm" ∷ "init" ∷ "--json" ∷ []) >>= λ out. pure (init_result out)

  abbrev vms_of : Json → Option (List Json)
  unfolding get
  vms_of j = array_at (get j "vms")

  unfoldable pub list_result : Output → ToolCallResult
  unfolding text failure vms_of list_text
  list_result out =
      if out.is_success
      then elim (o.parse_value out.stdout) [
        | none ↦ text (both out)
        | some j ↦ elim (vms_of j) [ none ↦ text (both out) | some vms ↦ text (list_text vms) ]
      ]
      else failure (both out)

  unfoldable pub tool_vm_list : Io (World o) ToolCallResult
  unfolding run_cli list_result
  tool_vm_list =
      run_cli o "vm list" ("vm" ∷ "list" ∷ "--json" ∷ []) >>= λ out. pure (list_result out)

  unfoldable pub stop_result : (vm_id : String) → Output → ToolCallResult
  unfolding text failure
  stop_result vm_id out =
      if out.is_success then text ("Stopped MicroVM " <> vm_id) else failure (both out)

  unfoldable pub tool_vm_stop : Json → Io (World o) ToolCallResult
  unfolding run_cli stop_result
  tool_vm_stop args = lift (o.decoders.vm_stop args) >>= λ a.
      run_cli o "vm stop" ("vm" ∷ "stop" ∷ a.vm_id ∷ "--json" ∷ []) >>= λ out.
      pure (stop_result a.vm_id out)
