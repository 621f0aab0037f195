-- ===== src/Cli/Main/Service.antt =====
-- A command of crates/ebpf-assist on the daemon of crates/ebpf-assistd: the client's socket is the
-- daemon's loop over the lines of one client. A line that the daemon does not answer is the end of
-- the stream, which the client reads as an empty line.
use ebpf_assist.Prelude.{false, String, ◌<>◌, List, [], ◌∷◌, none, Result, ok, str_eq, ◌≡◌, refl}
use ebpf_assist.Common.{Request, Response}
use ebpf_assist.Daemon.Host.{Host}
use ebpf_assist.Daemon.Handler.{State, handle_request, Outcome}
use ebpf_assist.Daemon.Server.{Codec, handle_client, Conversation, respond}
use ebpf_assist.Cli.Client.{Socket, connect}

-- serde's codec on the client's side.
pub record ClientCodec : Type 0 where
  pub print : Request → Result String String
  pub parse : String → Result String Response

abbrev first_line : List String → String
first_line [] = ""
first_line (line ∷ lines) = line

module _ (h : Host) (c : Codec) (k : ClientCodec) (version : String) where
  open h use {World}

  abbrev reply : Conversation h c → (World × State h) × Result String String
  reply conversation =
      ((conversation.world, conversation.state), ok (first_line conversation.written))

  unfoldable pub exchange_line : String → World × State h → (World × State h) × Result String String
  unfolding handle_client
  exchange_line line (w, s) = reply (handle_client h c version s w (line ∷ []))

  -- The daemon's end of the socket.
  abbrev pub daemon_socket : Socket
  daemon_socket = record {
    World = World × State h;
    runtime_dir = none;
    join = λ dir name. dir <> ("/" <> name);
    connect = λ path w. (w, ok tt);
    exchange = exchange_line;
    print = k.print;
    parse = k.parse;
  }

  respond-reply :
      (o : Outcome h) {text : String}
      → c.print o.2 ≡ ok text
      → reply (respond h c o λ s w. handle_client h c version s w [])
        ≡ ((o.0, o.1), ok (text <> "\n"))
  unfolding handle_client
  respond-reply (w, s, response) printed = rw printed refl

  pub exchange-handle :
      (s : State h) (w : World) (r : Request) {line text : String}
      → str_eq (c.trim line) "" ≡ false
      → c.parse (c.trim line) ≡ ok r
      → c.print (handle_request h version s r w).2 ≡ ok text
      → exchange_line line (w, s) ≡ (
        ((handle_request h version s r w).0, (handle_request h version s r w).1),
        ok (text <> "\n"),
      )
  unfolding handle_client exchange_line
  exchange-handle s w r words parsed printed =
      rw (words, parsed) (respond-reply (handle_request h version s r w) printed)
