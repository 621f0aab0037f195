-- ===== src/Vm/Wire/Client.antt =====
-- crates/ebpf-assist-vm/src/vsock_client.rs: the handshake of `GuestClient::connect`, and the requests
-- `ping` and `status`. What a read returns is the text that `from_utf8_lossy` makes of its bytes.
use ebpf_assist.Prelude.{ℕ, String, ◌<>◌, Result, ok, err, if◌then◌else◌, is_prefix}
use ebpf_assist.Vm.Protocol.{GuestCommand, GuestResponse, VmError, vsock}
use ebpf_assist.Vm.Wire.{Codec, Bytes, send_command}

-- The socket of Firecracker's vsock device, `trim` of the standard library, and the `Debug` of a
-- response.
pub record Device : Type 1 where
  pub World : Type 0
  pub open_socket : String → World → World × Result VmError (Unit {0})
  pub write_all : String → World → World × Result VmError (Unit {0})
  pub read : World → World × Result VmError String
  pub trim : String → String

module _ (d : Device) where
  open d use {World}

  abbrev greeted : World × Result VmError String → World × Result VmError (Unit {0})
  unfolding is_prefix
  greeted (w, ok response) =
      if is_prefix "OK" response
      then (w, ok tt)
      else (w, err (vsock ("Failed to connect to guest: " <> d.trim response)))
  greeted (w, err e) = (w, err e)

  abbrev asked : World × Result VmError (Unit {0}) → World × Result VmError (Unit {0})
  unfolding greeted
  asked (w, ok _) = greeted (d.read w)
  asked (w, err e) = (w, err e)

  abbrev opened : World × Result VmError (Unit {0}) → World × Result VmError (Unit {0})
  unfolding asked
  opened (w, ok _) = asked (d.write_all "CONNECT 5000\n" w)
  opened (w, err e) = (w, err e)

  unfoldable pub connect : (vsock_path : String) → World → World × Result VmError (Unit {0})
  unfolding opened
  connect vsock_path w = opened (d.open_socket vsock_path w)

module _ (c : Codec) (debug_response : GuestResponse → String) where
  abbrev unexpected : GuestResponse → VmError
  unexpected other = vsock ("Unexpected response: " <> debug_response other)

  abbrev judge_ping : Result VmError GuestResponse → Result VmError (Unit {0})
  judge_ping (ok GuestResponse.pong) = ok tt
  judge_ping (ok (GuestResponse.error code message)) = err (vsock message)
  judge_ping (ok other) = err (unexpected other)
  judge_ping (err e) = err e

  -- `incoming` is what the agent sends from then on.
  unfoldable pub ping : (incoming : Bytes) → Result VmError (Unit {0})
  unfolding send_command
  ping incoming = judge_ping (send_command c GuestCommand.ping incoming).result

  abbrev judge_status : Result VmError GuestResponse → Result VmError (ℕ × ℕ)
  judge_status (ok (GuestResponse.status_is uptime_secs programs_loaded)) =
      ok (uptime_secs, programs_loaded)
  judge_status (ok (GuestResponse.error code message)) = err (vsock message)
  judge_status (ok other) = err (unexpected other)
  judge_status (err e) = err e

  unfoldable pub status : (incoming : Bytes) → Result VmError (ℕ × ℕ)
  unfolding send_command
  status incoming = judge_status (send_command c GuestCommand.status incoming).result
