-- ===== src/Mcp/Tools.antt =====
-- crates/ebpf-assist-mcp/src/tools.rs: the tools, those that ask the daemon in the child `Daemon`.
pub mod Replies
pub mod Daemon
pub mod Call
pub mod Names
pub mod Flags
pub mod Service
use ebpf_assist.Prelude.{String, ◌<>◌, Result, ok, err}
use ebpf_assist.Common.{Request, Response}
use ebpf_assist.Daemon.Io.{Io, context, context_of}
use ebpf_assist.Cli.Client.{Socket, user_socket_path}

module _ (k : Socket) where
  open k use {World}

  abbrev read_line : World × Result String String → World × Result String Response
  read_line (w, ok line) = (w, context_of "Failed to parse daemon response" (k.parse line))
  read_line (w, err e) = (w, err e)

  abbrev send : Result String String → Io World Response
  send (ok line) w = read_line (k.exchange line w)
  send (err e) w = (w, err e)

  abbrev on_stream : Request → World × Result String (Unit {0}) → World × Result String Response
  on_stream r (w, ok stream) = send (k.print r) w
  on_stream r (w, err e) = (
    w,
    err ("Failed to connect to daemon at " <> (user_socket_path k <> ". Is ebpf-assistd running?")),
  )

  unfoldable pub daemon_request : Request → Io World Response
  unfolding user_socket_path
  daemon_request r w = on_stream r (k.connect (user_socket_path k) w)
