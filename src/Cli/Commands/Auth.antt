-- ===== src/Cli/Commands/Auth.antt =====
-- crates/ebpf-assist/src/commands.rs, the commands on the daemon and on the authorization: what each
-- prints for a response.
use ebpf_assist.Prelude.{Bool, true, false, List, [], ◌∷◌, String, ◌<>◌, if◌then◌else◌}
use ebpf_assist.Json.{obj, strings, bool, number, string}
use ebpf_assist.Common.{Response}
use ebpf_assist.Cli.{Format}
use ebpf_assist.Cli.Output.{Run, Line, out, prints_either, join}
use ebpf_assist.Cli.Errors.{report_error}
use ebpf_assist.Cli.Commands.Programs.{failure, unexpected}

abbrev pub capability_list : List String → String
capability_list [] = "none"
capability_list (c ∷ cs) = join ", " (c ∷ cs)

module _ (f : Format) where
  unfoldable pub status : (json_output : Bool) → Response → Run
  unfolding report_error join
  status json_output (Response.status_is version uptime_secs programs_loaded capabilities) =
      prints_either json_output
        (obj (
          ("version", string version)
          ∷ ("uptime_secs", number uptime_secs)
          ∷ ("programs_loaded", number programs_loaded)
          ∷ ("capabilities", strings capabilities)
          ∷ []))
        (out "ebpf-assistd status:"
          ∷ out ("  Version:         " <> version)
          ∷ out ("  Uptime:          " <> (f.show uptime_secs <> "s"))
          ∷ out ("  Programs loaded: " <> f.show programs_loaded)
          ∷ out ("  Capabilities:    " <> capability_list capabilities)
          ∷ [])
  status json_output (Response.error message code) = report_error json_output failure message code
  status json_output _ = unexpected

  unfoldable pub auth_status : (json_output : Bool) → Response → Run
  unfolding report_error
  auth_status json_output (Response.auth_status_result authorized expires_in_secs) =
      prints_either json_output
        (obj (("authorized", bool authorized) ∷ ("expires_in_secs", number expires_in_secs) ∷ []))
        (if authorized
          then out ("Authorized (expires in " <> (f.show expires_in_secs <> " seconds)")) ∷ []
          else out "Not authorized" ∷ out "\n💡 Run 'ebpf-assist unlock' to authenticate." ∷ [])
  auth_status json_output (Response.error message code) =
      report_error json_output failure message code
  auth_status json_output _ = unexpected

unfoldable pub ping : (json_output : Bool) → Response → Run
unfolding report_error
ping json_output Response.pong =
    prints_either json_output (obj (("running", bool true) ∷ [])) (out "Daemon is running" ∷ [])
ping json_output (Response.error message code) =
    report_error json_output (("running", bool false) ∷ []) message code
ping json_output _ = unexpected

-- What `unlock` prints before it asks the daemon.
abbrev pub unlock_notice : (json_output : Bool) → List Line
unlock_notice json_output = if json_output then [] else out "Requesting authorization..." ∷ []

unfoldable pub unlock : (json_output : Bool) → Response → Run
unfolding report_error
unlock json_output Response.unlocked =
    prints_either json_output
      (obj (
        ("success", bool true)
        ∷ ("authorized", bool true)
        ∷ ("cache_duration_secs", number 900)
        ∷ []))
      (out "Authorization granted (cached for 15 minutes)" ∷ [])
unlock json_output (Response.error message code) =
    report_error json_output (("success", bool false) ∷ ("authorized", bool false) ∷ []) message
      code
unlock json_output _ = unexpected

unfoldable pub lock : (json_output : Bool) → Response → Run
unfolding report_error
lock json_output Response.locked =
    prints_either json_output (obj (("success", bool true) ∷ ("authorized", bool false) ∷ []))
      (out "Authorization cache cleared" ∷ [])
lock json_output (Response.error message code) = report_error json_output failure message code
lock json_output _ = unexpected
