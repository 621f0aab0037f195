-- ===== src/Daemon/Server.antt =====
-- crates/ebpf-assistd/src/server.rs: the loop over the lines of one client. What arrives is the list
-- of lines that `read_line` returns before the end of the stream, and what is written is a list of
-- lines. The JSON codec is serde's, and `trim` is the standard library's. A read or a write that
-- fails ends the loop at once and is left out.
pub mod Session
use ebpf_assist.Prelude.{String, ◌<>◌, List, [], ◌∷◌, Result, ok, err, if◌then◌else◌, str_eq}
use ebpf_assist.Common.{Request, Response, invalid_request}
use ebpf_assist.Daemon.Host.{Host}
use ebpf_assist.Daemon.Handler.{State, Outcome, handle_request}

pub record Codec : Type 0 where
  pub trim : String → String
  pub parse : String → Result String Request
  pub print : Response → Result String String

module _ (h : Host) (c : Codec) where
  open h use {World}

  -- What is left when the loop ends: how it ended, and the lines written.
  pub record Conversation : Type 0 where
    pub world : World
    pub state : State h
    pub written : List String
    pub ended : Result String (Unit {0})

  abbrev pub answer : String → State h → Result String Request → World → Outcome h
  answer version s (ok request) w = handle_request h version s request w
  answer version s (err e) w = (w, s, Response.error ("Invalid request: " <> e) invalid_request)

  abbrev write : Result String String → World → State h → Conversation → Conversation
  write (ok json) w s rest = record rest { written = (json <> "\n") ∷ rest.written }
  write (err e) w s rest = record { world = w; state = s; written = []; ended = err e }

  -- One round of the loop with the response to its line, before the rounds that follow.
  abbrev pub respond : Outcome h → (State h → World → Conversation) → Conversation
  respond (w, s, response) rest = write (c.print response) w s (rest s w)

  unfoldable pub handle_client : (version : String) → State h → World → List String → Conversation
  unfolding handle_request
  handle_client version s w [] = record { world = w; state = s; written = []; ended = ok tt }
  handle_client version s w (line ∷ lines) =
      if str_eq (c.trim line) ""
      then handle_client version s w lines
      else respond (answer version s (c.parse (c.trim line)) w)
          λ s' w'. handle_client version s' w' lines
