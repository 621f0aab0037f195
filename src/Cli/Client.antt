-- ===== src/Cli/Client.antt =====
-- crates/ebpf-assist/src/client.rs: the connection of a client to the daemon. The socket is a
-- function from the line that is sent to the line that is read; JSON is serde's. `World` is the
-- state outside the client.
use ebpf_assist.Prelude.{String, ◌<>◌, Result, ok, err, Option, none, some}
use ebpf_assist.Common.{Request, Response}
use ebpf_assist.Daemon.Io.{Io, context_of}

pub record Socket : Type 1 where
  pub World : Type 0
  -- `std::env::var("XDG_RUNTIME_DIR")`, and `PathBuf::join`
  pub runtime_dir : Option String
  pub join : String → String → String
  pub connect : String → World → World × Result String (Unit {0})
  -- a write of the line and of its end, a flush, and a read of a line
  pub exchange : String → World → World × Result String String
  pub print : Request → Result String String
  pub parse : String → Result String Response

module _ (k : Socket) where
  open k use {World}

  abbrev path_in : Option String → String
  path_in none = "/tmp/ebpf-assist.sock"
  path_in (some dir) = k.join dir "ebpf-assist.sock"

  unfoldable pub user_socket_path : String
  user_socket_path = path_in k.runtime_dir

  unfoldable pub connect : Io World (Unit {0})
  unfolding user_socket_path
  connect w = (
    (k.connect user_socket_path w).0,
    context_of
        ("Failed to connect to daemon at " <> (user_socket_path <> ". Is ebpf-assistd running?"))
        (k.connect user_socket_path w).1,
  )

  abbrev parsed : World × Result String String → World × Result String Response
  parsed (w, ok line) = (w, context_of "Failed to parse response from daemon" (k.parse line))
  parsed (w, err e) = (w, err e)

  abbrev sent : Result String String → Io World Response
  sent (ok line) w = parsed (k.exchange line w)
  sent (err e) w = (w, err e)

  unfoldable pub request : Request → Io World Response
  request r w = sent (k.print r) w
