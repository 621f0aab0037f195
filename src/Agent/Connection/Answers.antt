-- ===== src/Agent/Connection/Answers.antt =====
-- What the host reads from the agent.
use ebpf_assist.Prelude.{
  true, append_nil, ℕ, zero, suc, ◌≤◌, ◌<◌, false, [], ◌++◌, String, Option, none, some, Result, ok,
  err, if◌then◌else◌, ltb, length, ◌≡◌, ◌≢◌, refl, arith, Bool-cases, inl, inr,
}
use ebpf_assist.Vm.Protocol.{error_response, GuestCommand, GuestResponse, max_message_size}
use ebpf_assist.Vm.Wire.{to_le_bytes, Bytes, Codec, from_le_bytes, frame, read_exact, send_command}
use ebpf_assist.Vm.Wire.Frames.{
  read_exact-append, from_le_bytes-to_le_bytes, read_exact-frame, read_exact-length,
  send_command-frame, send_command-written,
}
use ebpf_assist.Agent.Connection.{
  Connection, exited, out_of_rounds, is_shutdown, stop, send_encoded, send_response, answer_command,
  decoded, with_payload, with_header, handle_connection,
}

module _ (c : Codec) {S : Type 0} (handle : S → GuestCommand → S × GuestResponse) where
  -- A message that is well formed is answered by what the handler says, and the loop goes on with
  -- the bytes that follow, unless it is a shutdown.
  pub handle_connection-frame :
      (rounds : ℕ) (s : S) (command : GuestCommand) (payload rest : Bytes)
      → length payload ≤ max_message_size
      → c.decode_command payload ≡ ok command
      → handle_connection c handle (suc rounds) s (frame payload ++ rest)
        ≡ answer_command c handle command
            (handle s command)
            (λ s'. handle_connection c handle rounds s' rest)
  unfolding handle_connection with_header with_payload decoded
  handle_connection-frame rounds s command payload rest small decodes =
      let (head, size, body) = read_exact-frame payload rest small in
      let fits : ltb max_message_size (length payload) ≡ false = ground (arith, small) in
      rw (head, size, fits, body, decodes) refl

  handle_connection-oversized :
      (rounds : ℕ) (s : S) (n : ℕ) (rest : Bytes)
      → max_message_size < n
      → n < 4294967296
      → handle_connection c handle (suc rounds) s (to_le_bytes n ++ rest)
        ≡ send_response c handle s
            (error_response "Message too large")
            (handle_connection c handle rounds s rest)
  unfolding handle_connection with_header to_le_bytes
  handle_connection-oversized rounds s n rest large small =
      let over : ltb max_message_size n ≡ true = ground (arith, large) in
      rw (read_exact-append (to_le_bytes n) rest, from_le_bytes-to_le_bytes n small, over) refl

  answer_command-written :
      (command : GuestCommand) (q : S × GuestResponse) (more : S → Connection c handle)
      {answer : Bytes}
      → c.encode_response q.1 ≡ ok answer
      → (tail : Bytes) × ((answer_command c handle command q more).written ≡ frame answer ++ tail)
  unfolding answer_command send_response send_encoded
  answer_command-written command (s, r) more encodes =
      ((if is_shutdown command then stop c handle s exited else more s).written, rw encodes refl)

  -- The payload of a message above the limit is run: where it starts with the frame of a command that
  -- is within the limit and no shutdown, the handler gets this command, the agent answers twice, with
  -- the refusal and with the handler's response, if both can be encoded, and it goes on with the
  -- bytes behind the frame in the state that the handler has left.
  pub handle_connection_smuggled :
      (rounds : ℕ) (s : S) (n : ℕ) (command : GuestCommand) (payload rest refusal answer : Bytes)
      → max_message_size < n
      → n < 4294967296
      → length payload ≤ max_message_size
      → c.decode_command payload ≡ ok command
      → is_shutdown command ≡ false
      → c.encode_response (error_response "Message too large") ≡ ok refusal
      → c.encode_response (handle s command).1 ≡ ok answer
      → let after = handle_connection c handle rounds (handle s command).0 rest in
        let run =
          handle_connection c handle
            (suc (suc rounds))
            s
            (to_le_bytes n ++ (frame payload ++ rest)) in
        (run.state ≡ after.state)
        × (run.written ≡ frame refusal ++ (frame answer ++ after.written))
        × (run.ended ≡ after.ended)
  unfolding send_response send_encoded answer_command
  handle_connection_smuggled rounds s n command payload rest refusal answer large wide small decodes
        goes_on refuses answers =
      rw
        (
          handle_connection-oversized (suc rounds) s n (frame payload ++ rest) large wide,
          handle_connection-frame rounds s command payload rest small decodes,
          refuses,
          answers,
          goes_on,
        )
        (refl, refl, refl)

  -- A command that the host sends reaches the handler, and the host gets the handler's response:
  -- what `send_command` writes for it, handed to the agent in a state, makes the agent write bytes
  -- from which `send_command` returns the response of the handler in that state. Both messages must
  -- be within the limit, and the JSON of each must be read as it was written.
  pub send_command-handle_connection :
      (s : S) (command : GuestCommand) (payload answer incoming : Bytes) (rounds : ℕ)
      → c.encode_command command ≡ ok payload
      → c.decode_command payload ≡ ok command
      → c.encode_response (handle s command).1 ≡ ok answer
      → c.decode_response answer ≡ ok (handle s command).1
      → length payload ≤ max_message_size
      → length answer ≤ max_message_size
      → let sent = (send_command c command incoming).written in
        (send_command c command
          (handle_connection c handle (suc (suc rounds)) s sent).written).result
        ≡ ok (handle s command).1
  send_command-handle_connection s command payload answer incoming rounds encodes decodes answers
        reads small small_answer =
      let next : S → Connection c handle = λ s'. handle_connection c handle (suc rounds) s' [] in
      let (tail, wrote) = answer_command-written command (handle s command) next answers in
      rw
        (
          send_command-written c command payload incoming encodes small,
          ← append_nil (frame payload),
          handle_connection-frame (suc rounds) s command payload [] small decodes,
          wrote,
          send_command-frame c command (handle s command).1 payload answer tail encodes small
              small_answer reads,
        )
        refl

  -- A round that ends well leaves less of the stream, so the loop has rounds enough.
  send_response-ended :
      (s : S) (r : GuestResponse) (rest : Connection c handle)
      → rest.ended ≢ out_of_rounds
      → (send_response c handle s r rest).ended ≢ out_of_rounds
  unfolding send_response send_encoded
  send_response-ended s r rest fine = go (c.encode_response r)
    where
      go : (e : Result String Bytes) → (send_encoded c handle s e rest).ended ≢ out_of_rounds
      go (ok payload) = fine
      go (err x) = λ bad. cc

  answer_command-ended :
      (command : GuestCommand) (q : S × GuestResponse) (more : S → Connection c handle)
      → ((s : S) → (more s).ended ≢ out_of_rounds)
      → (answer_command c handle command q more).ended ≢ out_of_rounds
  unfolding answer_command
  answer_command-ended command (s, r) more fine = elim (Bool-cases (is_shutdown command)) [
    | inl ends ↦ rw ends (send_response-ended s r (stop c handle s exited) (λ bad. cc))
    | inr goes_on ↦ rw goes_on (send_response-ended s r (more s) (fine s))
  ]

  decoded-ended :
      (s : S) (r : Result String GuestCommand) (more : S → Connection c handle)
      → ((t : S) → (more t).ended ≢ out_of_rounds)
      → (decoded c handle s r more).ended ≢ out_of_rounds
  unfolding decoded
  decoded-ended s (ok command) more fine = answer_command-ended command (handle s command) more fine
  decoded-ended s (err e) more fine = send_response-ended s _ (more s) (fine s)

  with_payload-ended :
      (s : S) (n : ℕ) (stream : Bytes) (o : Option (Bytes × Bytes))
      (more : S → Bytes → Connection c handle)
      → read_exact n stream ≡ o
      → ((t : S) (rest : Bytes) → length rest ≤ length stream → (more t rest).ended ≢ out_of_rounds)
      → (with_payload c handle s o more).ended ≢ out_of_rounds
  unfolding with_payload
  with_payload-ended s n stream none more e fine = λ bad. cc
  with_payload-ended s n stream (some (payload, rest)) more e fine =
      decoded-ended s (c.decode_command payload) (λ t. more t rest)
        (λ t. fine t rest (omega (arith, read_exact-length n stream e)))

  with_header-ended :
      (s : S) (stream : Bytes) (o : Option (Bytes × Bytes)) (more : S → Bytes → Connection c handle)
      → read_exact 4 stream ≡ o
      → ((t : S) (rest : Bytes) → length rest < length stream → (more t rest).ended ≢ out_of_rounds)
      → (with_header c handle s o more).ended ≢ out_of_rounds
  unfolding with_header
  with_header-ended s stream none more e fine = λ bad. cc
  with_header-ended s stream (some (header, rest)) more e fine =
      let less = read_exact-length 4 stream e in
      elim (Bool-cases (ltb max_message_size (from_le_bytes header))) [
        | inl large ↦
            rw large (send_response-ended s _ (more s rest) (fine s rest (omega (arith, less))))
        | inr fits ↦ rw fits (
            with_payload-ended s (from_le_bytes header) rest
              (read_exact (from_le_bytes header) rest) more refl
              (λ t left small. fine t left (omega (arith, less, small))))
      ]

  -- With more rounds than the stream has bytes, the loop ends by itself: at the end of the stream,
  -- by an error or by a shutdown.
  pub handle_connection-ended :
      (rounds : ℕ) (s : S) (incoming : Bytes)
      → length incoming < rounds
      → (handle_connection c handle rounds s incoming).ended ≢ out_of_rounds
  unfolding handle_connection
  handle_connection-ended zero s incoming small = absurd (omega (arith, small))
  handle_connection-ended (suc rounds) s incoming small =
      with_header-ended s incoming (read_exact 4 incoming) (handle_connection c handle rounds) refl
        (λ t rest less. handle_connection-ended rounds t rest (omega (arith, small, less)))
