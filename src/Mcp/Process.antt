-- ===== src/Mcp/Process.antt =====
-- crates/ebpf-assist-mcp/src/tools.rs: the tools that run the command line client as a process and
-- read its output.
pub mod Programs
pub mod Status
pub mod Compiled
pub mod Endless
pub mod Activity
pub mod MicroVms
use ebpf_assist.Prelude.{Bool, true, String, ◌<>◌, List, [], ◌∷◌, Option, none, some, if◌then◌else◌}
use ebpf_assist.Json.{Json, get, as_str, read_or}
use ebpf_assist.Daemon.Io.{Io, context}
use ebpf_assist.Mcp.{Outside, Output}
use ebpf_assist.Mcp.Protocol.{ToolCallResult, text, failure}

-- `format!("{}{}", stdout, stderr)`
abbrev pub both : Output → String
both o = o.stdout <> o.stderr

-- `.get(key).and_then(|v| v.as_str()).unwrap_or(default)`
abbrev pub str_or : (default : String) → Json → (key : String) → String
unfolding get
str_or default j key = read_or default as_str (get j key)

-- An option of a command line that is there if its value is.
abbrev pub option : String → Option String → List String
option name none = []
option name (some value) = name ∷ value ∷ []

module _ (o : Outside) where
  abbrev pub World : Type 0
  World = o.socket.World

  abbrev beside : Option String → String
  beside none = "ebpf-assist"
  beside (some dir) =
      let cli_path = o.join dir "ebpf-assist" in
      if o.is_file cli_path then cli_path else "ebpf-assist"

  unfoldable pub find_cli_binary : String
  find_cli_binary = beside o.exe_dir

  -- The process of a tool; `what` is the command's name in the message of a failure to start it.
  unfoldable pub run_cli : (what : String) → List String → Io World Output
  unfolding find_cli_binary
  run_cli what args = context ("Failed to run ebpf-assist " <> what) (o.output find_cli_binary args)
