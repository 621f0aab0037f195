-- ===== src/Cli/Tests.antt =====
-- Runs of the commands of crates/ebpf-assist, also over the daemon's own loop.
use ebpf_assist.Prelude.{ℕ, zero, suc, String, ◌<>◌, some, ok, err, str_eq, if◌then◌else◌}
use ebpf_assist.Common.{Request, Response, auth_required}
use ebpf_assist.Daemon.Server.{Codec}
use ebpf_assist.Cli.{Format}
use ebpf_assist.Cli.Main.Service.{ClientCodec}

-- Numbers are shown in unary.
abbrev ones : ℕ → String
ones zero = ""
ones (suc n) = "1" <> ones n

abbrev format : Format
format = record { show = ones; show_text = λ t. "text" }

abbrev ask_load : Request
ask_load = Request.load "/a.o" (some "probe")

abbrev challenged : Response
challenged = Response.error "Authorization required. Run 'ebpf-assist unlock' first." auth_required

-- A codec for one request and for messages.
abbrev codec : Codec
codec = record {
  trim = λ line. line;
  parse = λ line. if str_eq line "load" then ok ask_load else err "no request";
  print = λ _. ok "challenged";
}

abbrev client_codec : ClientCodec
client_codec = record { print = λ _. ok "load"; parse = λ line. ok challenged }
