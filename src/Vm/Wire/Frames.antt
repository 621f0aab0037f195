-- ===== src/Vm/Wire/Frames.antt =====
-- A message is read as it was written.
use ebpf_assist.Prelude.{
  drop, ◌+◌, length-drop_le, false, ltb, ok, Option, none, Bool-cases, inl, inr, ℕ, ◌%◌, ◌≤◌, ◌<◌,
  true, ◌++◌, some, leb, length, length-append, take-append, drop-append, ◌≡◌, refl, ap, ◌∙◌, arith,
}
use ebpf_assist.Vm.Protocol.{GuestCommand, GuestResponse, max_message_size}
use ebpf_assist.Vm.Wire.{
  Bytes, Codec, to_le_bytes, from_le_bytes, frame, read_exact, send_command, send_payload,
  read_response, read_payload,
}

-- A number below 2^32 is read from its four bytes.
pub from_le_bytes-to_le_bytes : (n : ℕ) → n < 4294967296 → from_le_bytes (to_le_bytes n) ≡ n
unfolding from_le_bytes to_le_bytes
from_le_bytes-to_le_bytes n small = omega arith

-- A read of as many bytes as a prefix of the stream has gives the prefix.
pub read_exact-append : (xs ys : Bytes) → read_exact (length xs) (xs ++ ys) ≡ some (xs, ys)
unfolding read_exact
read_exact-append xs ys =
    let enough : leb (length xs) (length (xs ++ ys)) ≡ true = ground (arith, length-append xs ys) in
    rw (enough, take-append xs ys, drop-append xs ys) refl

pub read_exact-length :
    (n : ℕ) (stream : Bytes) {xs rest : Bytes}
    → read_exact n stream ≡ some (xs, rest)
    → length rest + n ≡ length stream
unfolding read_exact
read_exact-length n stream {xs} {rest} e = elim (Bool-cases (leb n (length stream))) [
  | inl enough ↦
      let read = rw enough at e in
      let same : drop n stream ≡ rest = cc in rw (← same) (length-drop_le n stream (ground arith))
  | inr few ↦ let nothing = rw few at e in cc
]

whole :
    (payload : Bytes)
    → length payload ≤ max_message_size
    → length payload % 4294967296 ≡ length payload
whole payload small = omega (arith, small)

-- The header and the payload of a message are read back from the front of a stream.
pub read_exact-frame :
    (payload rest : Bytes)
    → length payload ≤ max_message_size
    → (read_exact 4 (frame payload ++ rest) ≡ some (to_le_bytes (length payload), payload ++ rest))
      × (from_le_bytes (to_le_bytes (length payload)) ≡ length payload)
      × (read_exact (length payload) (payload ++ rest) ≡ some (payload, rest))
unfolding frame to_le_bytes
read_exact-frame payload rest small = (
  read_exact-append (to_le_bytes (length payload % 4294967296)) (payload ++ rest)
      ∙ ap (λ n. some (to_le_bytes n, payload ++ rest)) (whole payload small),
  from_le_bytes-to_le_bytes (length payload) (omega (arith, small)),
  read_exact-append payload rest,
)

module _ (c : Codec) where
  -- The host reads a response that is well formed from the front of the stream.
  pub send_command-frame :
      (command : GuestCommand) (response : GuestResponse) (payload answer rest : Bytes)
      → c.encode_command command ≡ ok payload
      → length payload ≤ max_message_size
      → length answer ≤ max_message_size
      → c.decode_response answer ≡ ok response
      → send_command c command (frame answer ++ rest)
        ≡ record { written = frame payload; rest = rest; result = ok response }
  unfolding send_command send_payload read_response
  send_command-frame command response payload answer rest encodes small small_answer decodes =
      let (head, size, body) = read_exact-frame answer rest small_answer in
      let fits : ltb max_message_size (length payload) ≡ false = ground (arith, small) in
      let fits_answer : ltb max_message_size (length answer) ≡ false =
        ground (arith, small_answer) in
      rw (encodes, fits, head, size, fits_answer, body, decodes) refl

  read_payload-written :
      (written : Bytes) (o : Option (Bytes × Bytes)) → (read_payload c written o).written ≡ written
  read_payload-written written none = refl
  read_payload-written written (some (payload, rest)) = ground arith

  read_response-written :
      (written : Bytes) (o : Option (Bytes × Bytes)) → (read_response c written o).written ≡ written
  unfolding read_response
  read_response-written written none = refl
  read_response-written written (some (header, rest)) =
      elim (Bool-cases (ltb max_message_size (from_le_bytes header))) [
        | inl large ↦ rw large refl
        | inr fits ↦ rw fits (read_payload-written written (read_exact (from_le_bytes header) rest))
      ]

  -- What is written for a command does not depend on what the agent sends.
  pub send_command-written :
      (command : GuestCommand) (payload incoming : Bytes)
      → c.encode_command command ≡ ok payload
      → length payload ≤ max_message_size
      → (send_command c command incoming).written ≡ frame payload
  unfolding send_command send_payload
  send_command-written command payload incoming encodes small =
      let fits : ltb max_message_size (length payload) ≡ false = ground (arith, small) in
      rw (encodes, fits) (read_response-written (frame payload) (read_exact 4 incoming))
