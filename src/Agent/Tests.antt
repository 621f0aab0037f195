-- ===== src/Agent/Tests.antt =====
-- Runs of a connection, with an agent that counts its pings, and of the commands.
use ebpf_assist.Prelude.{
  false, true, ℕ, suc, [], ◌∷◌, ◌++◌, String, Result, ok, err, refl, arith, ◌≡◌, ◌≢◌,
}
use ebpf_assist.Vm.Protocol.{GuestCommand, GuestResponse}
use ebpf_assist.Vm.Wire.{Bytes, Codec, frame, to_le_bytes, send_command}
use ebpf_assist.Daemon.Tests.{DemoWorld, demo, world_at}
use ebpf_assist.Agent.Loader.Consistent.{IsConsistent}
use ebpf_assist.Agent.Handler.{Tools, CommandHandler, handle}
use ebpf_assist.Agent.Handler
use ebpf_assist.Agent.Handler.Keeps.{started, handled, Served-IsConsistent}
use ebpf_assist.Agent.Connection.{closed, out_of_rounds, handle_connection}
use ebpf_assist.Agent.Connection.Answers.{
  handle_connection_smuggled, send_command-handle_connection, handle_connection-ended,
}

abbrev encode : GuestCommand → Result String Bytes
encode GuestCommand.ping = ok (1 ∷ [])
encode _ = err "other"

abbrev decode : Bytes → Result String GuestCommand
decode [] = err "empty"
decode (b ∷ bs) = ok GuestCommand.ping

abbrev encode_answer : GuestResponse → Result String Bytes
encode_answer GuestResponse.pong = ok (2 ∷ 3 ∷ [])
encode_answer _ = ok (4 ∷ [])

abbrev decode_answer : Bytes → Result String GuestResponse
decode_answer [] = err "empty"
decode_answer (b ∷ bs) = ok GuestResponse.pong

abbrev codec : Codec
codec = record {
  encode_command = encode;
  decode_command = decode;
  encode_response = encode_answer;
  decode_response = decode_answer;
  show = λ n. "n";
  eof = "unexpected end of file";
}

abbrev count_pings : ℕ → GuestCommand → ℕ × GuestResponse
count_pings n GuestCommand.ping = (suc n, GuestResponse.pong)
count_pings n _ = (n, GuestResponse.shutting_down)

-- The bytes behind the length are those of a ping.
handle_connection_smuggled_example :
    let run =
      handle_connection codec count_pings 3 0 (to_le_bytes 20000000 ++ (frame (1 ∷ []) ++ [])) in
    (run.state ≡ 1)
    × (run.written ≡ frame (4 ∷ []) ++ (frame (2 ∷ 3 ∷ []) ++ []))
    × (run.ended ≡ closed)
unfolding handle_connection
handle_connection_smuggled_example =
    handle_connection_smuggled codec count_pings 1 0 20000000 GuestCommand.ping (1 ∷ []) [] (4 ∷ [])
      (2 ∷ 3 ∷ []) (omega arith) (omega arith) (omega arith) refl refl refl refl

send_command-handle_connection_example :
    (send_command codec GuestCommand.ping
      (handle_connection codec count_pings 2 7
        (send_command codec GuestCommand.ping []).written).written).result
    ≡ ok GuestResponse.pong
send_command-handle_connection_example =
    send_command-handle_connection codec count_pings 7 GuestCommand.ping (1 ∷ []) (2 ∷ 3 ∷ []) [] 0
      refl refl refl refl (omega arith) (omega arith)

handle_connection-ended_example :
    (handle_connection codec count_pings 6 0 (1 ∷ 0 ∷ 0 ∷ 0 ∷ 1 ∷ [])).ended ≢ out_of_rounds
handle_connection-ended_example =
    handle_connection-ended codec count_pings 6 0 (1 ∷ 0 ∷ 0 ∷ 0 ∷ 1 ∷ []) (omega arith)

abbrev tools : Tools DemoWorld
tools = record {
  execute = λ category operation args w. (w, ok "done");
  read_trace_pipe = λ lines timeout w. (w, []);
}

abbrev show_number : ℕ → String
show_number n = "n"

-- An agent that has loaded an object.
abbrev busy : CommandHandler demo show_number tools
unfolding handle
busy =
    (handle demo show_number tools (Handler.new demo show_number tools 0)
      (GuestCommand.load (1 ∷ []) "probe") (world_at 0 (true, false))).1

Served-IsConsistent_example : IsConsistent demo show_number busy.loader
unfolding busy
Served-IsConsistent_example = Served-IsConsistent demo show_number tools busy (
    handled (Handler.new demo show_number tools 0) (GuestCommand.load (1 ∷ []) "probe")
      (world_at 0 (true, false)) (started 0))
