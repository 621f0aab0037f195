-- ===== src/Agent/Connection.antt =====
-- crates/ebpf-assist-agent/src/main.rs: the loop over the messages of one connection. The handler is
-- a parameter, a function from its state and a command to the new state and the response. What the
-- host sends is the list of its bytes up to the end of the stream; writes do not fail. Each round
-- reads four bytes or more, so as many rounds as the stream has bytes, and one, are enough.
pub mod Answers
use ebpf_assist.Prelude.{
  ℕ, zero, suc, Bool, true, false, List, [], ◌∷◌, ◌++◌, String, ◌<>◌, Option, none, some, Result,
  ok, err, if◌then◌else◌, ltb,
}
use ebpf_assist.Vm.Protocol.{GuestCommand, GuestResponse, max_message_size, error_response}
use ebpf_assist.Vm.Wire.{Bytes, Codec, from_le_bytes, frame, read_exact}

-- How the loop ends: at the end of the stream, by an error, by the exit of the process, or without
-- rounds left.
pub data Ended : Type 0 where
  closed exited out_of_rounds : Ended
  failed : String → Ended

abbrev pub is_shutdown : GuestCommand → Bool
is_shutdown GuestCommand.shutdown = true
is_shutdown _ = false

module _ (c : Codec) {S : Type 0} (handle : S → GuestCommand → S × GuestResponse) where
  pub record Connection : Type 0 where
    pub state : S
    pub written : Bytes
    pub ended : Ended

  abbrev pub stop : S → Ended → Connection
  stop s ended = record { state = s; written = []; ended = ended }

  abbrev send_encoded : S → Result String Bytes → Connection → Connection
  unfolding frame
  send_encoded s (ok payload) rest = record rest { written = frame payload ++ rest.written }
  send_encoded s (err e) rest = stop s (failed e)

  -- `send_response`, before the rounds that follow
  abbrev pub send_response : S → GuestResponse → Connection → Connection
  unfolding send_encoded
  send_response s response rest = send_encoded s (c.encode_response response) rest

  -- The rounds that follow the response to a command, if any do
  abbrev pub answer_command : GuestCommand → S × GuestResponse → (S → Connection) → Connection
  unfolding send_response
  answer_command command (s, response) more =
      send_response s response (if is_shutdown command then stop s exited else more s)

  abbrev pub decoded : S → Result String GuestCommand → (S → Connection) → Connection
  unfolding send_response error_response answer_command
  decoded s (ok command) more = answer_command command (handle s command) more
  decoded s (err e) more = send_response s (error_response ("Invalid command: " <> e)) (more s)

  abbrev pub with_payload : S → Option (Bytes × Bytes) → (S → Bytes → Connection) → Connection
  unfolding decoded
  with_payload s none more = stop s (failed c.eof)
  with_payload s (some (payload, rest)) more =
      decoded s (c.decode_command payload) (λ s'. more s' rest)

  abbrev pub with_header : S → Option (Bytes × Bytes) → (S → Bytes → Connection) → Connection
  unfolding send_response error_response with_payload from_le_bytes read_exact
  with_header s none more = stop s closed
  with_header s (some (header, rest)) more =
      if ltb max_message_size (from_le_bytes header)
      then send_response s (error_response "Message too large") (more s rest)
      else with_payload s (read_exact (from_le_bytes header) rest) more

  unfoldable pub handle_connection : (rounds : ℕ) → S → (incoming : Bytes) → Connection
  unfolding with_header read_exact
  handle_connection zero s incoming = stop s out_of_rounds
  handle_connection (suc rounds) s incoming =
      with_header s (read_exact 4 incoming) (handle_connection rounds)
