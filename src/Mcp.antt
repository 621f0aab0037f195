-- ===== src/Mcp.antt =====
-- crates/ebpf-assist-mcp: the server that gives an AI assistant the daemon and the command line client
-- as tools. What the server takes from its surroundings are the fields of `Outside`.
pub mod Protocol
pub mod Args
pub mod Schemas
pub mod Process
pub mod Tools
pub mod Server
pub mod Tests
use ebpf_assist.Prelude.{ℕ, Bool, String, List, Option, Result}
use ebpf_assist.Json.{Json}
use ebpf_assist.Common.{Text}
use ebpf_assist.Cli.Client.{Socket}
use ebpf_assist.Mcp.Args.{Decoders}

-- `std::process::Output`: whether the status is a success, and the two streams as `from_utf8_lossy`
-- reads them.
pub record Output : Type 0 where
  pub is_success : Bool
  pub stdout : String
  pub stderr : String

pub record Outside : Type 1 where
  -- the daemon's socket, the world, and the place of the socket
  pub socket : Socket
  -- `current_exe` with its parent, `is_file`, and `PathBuf::join`
  pub exe_dir : Option String
  pub is_file : String → Bool
  pub join : String → String → String
  pub canonicalize : String → socket.World → Result String String
  -- `tokio::process::Command::new(program).args(args).output()`
  pub output : String → List String → socket.World → socket.World × Result String Output
  -- serde: the arguments of the tools, and `from_str::<Value>`
  pub decoders : Decoders
  pub parse_value : String → Option Json
  -- the `Display` of a number, and of the text of a key or a value
  pub show : ℕ → String
  pub show_text : Text → String
  pub version : String
