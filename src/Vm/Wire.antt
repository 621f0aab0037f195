-- ===== src/Vm/Wire.antt =====
-- crates/ebpf-assist-vm/src/vsock_client.rs: messages between the host and the agent in a guest, a
-- length of four bytes, the least significant first, and a JSON text of that length. What the peer
-- sends is the list of its bytes up to the end of the stream; writes do not fail. JSON is serde's.
pub mod Frames
pub mod Client
use ebpf_assist.Prelude.{
  ℕ, zero, suc, ◌+◌, ◌*◌, ◌/◌, ◌%◌, List, [], ◌∷◌, ◌++◌, String, ◌<>◌, Option, none, some, Result,
  ok, err, if◌then◌else◌, ltb, leb, length, take, drop,
}
use ebpf_assist.Vm.Protocol.{
  GuestCommand, GuestResponse, VmError, vsock, io, json, max_message_size,
}

abbrev pub Bytes : Type 0
Bytes = List ℕ

-- serde_json, the `Display` of a number, and the message of tokio's `UnexpectedEof`
pub record Codec : Type 0 where
  pub encode_command : GuestCommand → Result String Bytes
  pub decode_command : Bytes → Result String GuestCommand
  pub encode_response : GuestResponse → Result String Bytes
  pub decode_response : Bytes → Result String GuestResponse
  pub show : ℕ → String
  pub eof : String

-- `u32::to_le_bytes` and `u32::from_le_bytes`
unfoldable pub to_le_bytes : ℕ → Bytes
to_le_bytes n = n % 256 ∷ n / 256 % 256 ∷ n / 65536 % 256 ∷ n / 16777216 % 256 ∷ []

unfoldable pub from_le_bytes : Bytes → ℕ
from_le_bytes [] = 0
from_le_bytes (b ∷ bs) = b + 256 * from_le_bytes bs

-- The length, as a u32, and the payload.
unfoldable pub frame : Bytes → Bytes
unfolding to_le_bytes
frame payload = to_le_bytes (length payload % 4294967296) ++ payload

-- `read_exact`: the bytes read and those left, or none at the end of the stream.
unfoldable pub read_exact : ℕ → Bytes → Option (Bytes × Bytes)
read_exact n stream = if leb n (length stream) then some (take n stream, drop n stream) else none

-- What `send_command` has written, what is left of the stream, and its result.
pub record Exchange : Type 0 where
  pub written : Bytes
  pub rest : Bytes
  pub result : Result VmError GuestResponse

module _ (c : Codec) where
  abbrev too_large : String → ℕ → VmError
  too_large what n = vsock (
      what
      <> (" too large: " <> (c.show n <> (" bytes (max " <> (c.show max_message_size <> ")")))))

  abbrev pub received : Bytes → Bytes → Result String GuestResponse → Exchange
  received written rest (ok response) = record {
    written = written;
    rest = rest;
    result = ok response;
  }
  received written rest (err e) = record { written = written; rest = rest; result = err (json e) }

  abbrev pub read_payload : Bytes → Option (Bytes × Bytes) → Exchange
  read_payload written none = record { written = written; rest = []; result = err (io c.eof) }
  read_payload written (some (payload, rest)) = received written rest (c.decode_response payload)

  abbrev pub read_response : Bytes → Option (Bytes × Bytes) → Exchange
  unfolding from_le_bytes read_exact
  read_response written none = record { written = written; rest = []; result = err (io c.eof) }
  read_response written (some (header, rest)) =
      if ltb max_message_size (from_le_bytes header)
      then record {
        written = written;
        rest = rest;
        result = err (too_large "Response" (from_le_bytes header));
      }
      else read_payload written (read_exact (from_le_bytes header) rest)

  abbrev pub send_payload : Result String Bytes → Bytes → Exchange
  unfolding frame read_response read_exact
  send_payload (err e) incoming = record { written = []; rest = incoming; result = err (json e) }
  send_payload (ok payload) incoming =
      if ltb max_message_size (length payload)
      then record {
        written = [];
        rest = incoming;
        result = err (too_large "Message" (length payload));
      }
      else read_response (frame payload) (read_exact 4 incoming)

  -- `incoming` is what the agent sends from then on.
  unfoldable pub send_command : GuestCommand → (incoming : Bytes) → Exchange
  unfolding send_payload
  send_command command incoming = send_payload (c.encode_command command) incoming
