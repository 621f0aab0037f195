-- ===== src/Cli/Main.antt =====
-- crates/ebpf-assist/src/main.rs, the commands on the daemon, and crates/ebpf-assist/src/commands.rs,
-- the steps that each has before it prints: it connects, sends one request, and reads the response.
-- `canonicalize` is the standard library's. The keys and values on a command line are lists of code
-- points, as in the requests. `load` is the one without `--isolate`.
pub mod Ends
pub mod Service
use ebpf_assist.Prelude.{ℕ, Bool, List, [], ◌++◌, String, ◌<>◌, Option, none, some, Result, ok, err}
use ebpf_assist.Common.{Text, Request, Response}
use ebpf_assist.Daemon.Io.{Io}
use ebpf_assist.Cli.{Format}
use ebpf_assist.Cli.Client.{Socket, connect, request}
use ebpf_assist.Cli.Output.{failed, Run, Line, bail}
use ebpf_assist.Cli.Commands.Programs
use ebpf_assist.Cli.Commands.Auth
use ebpf_assist.Cli.Commands.Maps

pub data MapCommands : Type 0 where
  map_list : (id : ℕ) → MapCommands
  map_read : (id : ℕ) (name : String) (key : Option Text) → MapCommands
  map_write : (id : ℕ) (name : String) (key value : Text) → MapCommands
  map_delete : (id : ℕ) (name : String) (key : Text) → MapCommands

pub data Commands : Type 0 where
  load : (path : String) (name : Option String) → Commands
  unload detach : (id : ℕ) → Commands
  attach : (id : ℕ) (target : String) → Commands
  list status ping unlock lock auth : Commands
  on_map : MapCommands → Commands

-- The request of a command, with the path of `load` made canonical.
unfoldable pub request_of : (path : String) → Commands → Request
request_of path (Commands.load _ name) = Request.load path name
request_of path (Commands.unload id) = Request.unload id
request_of path (Commands.attach id target) = Request.attach id target
request_of path (Commands.detach id) = Request.detach id
request_of path Commands.list = Request.list_all
request_of path Commands.status = Request.status
request_of path Commands.ping = Request.ping
request_of path Commands.unlock = Request.unlock
request_of path Commands.lock = Request.lock
request_of path Commands.auth = Request.auth_status
request_of path (on_map (map_list id)) = Request.map_list id
request_of path (on_map (map_read id name key)) = Request.map_read id name key
request_of path (on_map (map_write id name key value)) = Request.map_write id name key value
request_of path (on_map (map_delete id name key)) = Request.map_delete id name key

abbrev not_running : Commands → String
not_running (Commands.load _ _) =
    "Failed to connect to daemon.\n\n💡 Is ebpf-assistd running?\n   Start with: ebpf-assistd\n   Or: systemctl start ebpf-assistd@$USER"
not_running _ = "Failed to connect to daemon. Is ebpf-assistd running?"

-- What is printed between the connection and the request.
abbrev notice : (json_output : Bool) → Commands → List Line
notice json_output Commands.unlock = Auth.unlock_notice json_output
notice json_output _ = []

module _ (f : Format) where
  -- The `match` of a command on the response.
  unfoldable pub show : (json_output : Bool) → Commands → Response → Run
  unfolding Programs.load Programs.unload Programs.attach Programs.detach Programs.list Auth.status
      Auth.ping Auth.unlock Auth.lock Auth.auth_status Maps.map_list Maps.map_read Maps.map_write
      Maps.map_delete
  show json_output (Commands.load _ _) = Programs.load f json_output
  show json_output (Commands.unload id) = Programs.unload f json_output
  show json_output (Commands.attach id target) = Programs.attach f json_output
  show json_output (Commands.detach id) = Programs.detach f json_output
  show json_output Commands.list = Programs.list f json_output
  show json_output Commands.status = Auth.status f json_output
  show json_output Commands.ping = Auth.ping json_output
  show json_output Commands.unlock = Auth.unlock json_output
  show json_output Commands.lock = Auth.lock json_output
  show json_output Commands.auth = Auth.auth_status f json_output
  show json_output (on_map (map_list id)) = Maps.map_list f id json_output
  show json_output (on_map (map_read id name key)) = Maps.map_read f json_output
  show json_output (on_map (map_write id name key value)) = Maps.map_write f json_output
  show json_output (on_map (map_delete id name key)) = Maps.map_delete f json_output

  module _ (k : Socket) (canonicalize : String → k.World → Result String String) where
    open k use {World}

    abbrev answered : (json_output : Bool) → Commands → World × Result String Response → World × Run
    answered json_output c (w, ok response) =
        let run = show json_output c response in
        (w, record { lines = notice json_output c ++ run.lines; ended = run.ended })
    answered json_output c (w, err e) =
        (w, record { lines = notice json_output c; ended = failed e })

    abbrev connected :
        (json_output : Bool) (path : String)
        → Commands
        → World × Result String (Unit {0})
        → World × Run
    unfolding request_of request show
    connected json_output path c (w, ok _) =
        answered json_output c (request k (request_of path c) w)
    connected json_output path c (w, err e) = (w, bail (not_running c))

    -- `path.canonicalize()`, with its message
    abbrev real_path : Commands → World → Result String String
    real_path (Commands.load path name) w = elim (canonicalize path w) [
      | ok real ↦ ok real
      | err e ↦ err (
          "File not found: "
          <> (path <> "\n\n💡 Did you compile the program?\n   Run: ebpf-assist compile <source.c>"))
    ]
    real_path _ w = ok ""

    abbrev start : (json_output : Bool) → Commands → World → Result String String → World × Run
    unfolding connected connect
    start json_output c w (ok path) = connected json_output path c (connect k w)
    start json_output c w (err e) = (w, bail e)

    unfoldable pub run : (json_output : Bool) → Commands → World → World × Run
    unfolding start
    run json_output c w = start json_output c w (real_path c w)
