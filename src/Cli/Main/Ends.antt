-- ===== src/Cli/Main/Ends.antt =====
-- How the commands of crates/ebpf-assist end.
use ebpf_assist.Prelude.{Bool, true, false, List, String, ◌≡◌, refl, if◌then◌else◌}
use ebpf_assist.Json.{Json}
use ebpf_assist.Common.{Response, ErrorCode}
use ebpf_assist.Common.Answers.{is_answer}
use ebpf_assist.Cli.{Format}
use ebpf_assist.Cli.Errors.{report_error, improve_error}
use ebpf_assist.Cli.Output.{Line, Ended, success, exit_failure, failed, prints_either}
use ebpf_assist.Cli.Main.{
  Commands, MapCommands, on_map, map_list, map_read, map_write, map_delete, show, request_of,
}
use ebpf_assist.Cli.Commands.Programs
use ebpf_assist.Cli.Commands.Auth
use ebpf_assist.Cli.Commands.Maps

-- How a command that reads this response ends, if it is an answer to its request.
abbrev pub end_of : (json_output : Bool) → Response → Ended
unfolding improve_error
end_of json_output (Response.error message code) =
    if json_output then exit_failure else failed (improve_error code message)
end_of json_output _ = success

abbrev pub end_if : (is_expected json_output : Bool) → Response → Ended
unfolding end_of
end_if true json_output response = end_of json_output response
end_if false json_output response = failed "Unexpected response from daemon"

either-success :
    (json_output : Bool) (document : Json) (lines : List Line)
    → (prints_either json_output document lines).ended ≡ success
either-success true document lines = refl
either-success false document lines = refl

report_error-end :
    (json_output : Bool) (first : List (String × Json)) (message : String) (code : ErrorCode)
    → (report_error json_output first message code).ended
      ≡ (if json_output then exit_failure else failed (improve_error code message))
unfolding report_error
report_error-end true first message code = refl
report_error-end false first message code = refl

module _ (f : Format) (json_output : Bool) where
  map-end :
      (path : String) (c : MapCommands) (r : Response)
      → (show f json_output (on_map c) r).ended
        ≡ end_if (is_answer (request_of path (on_map c)) r) json_output r
  unfolding show request_of is_answer end_if Programs.load Programs.unload Programs.attach
      Programs.detach Programs.list Auth.status Auth.ping Auth.unlock Auth.lock Auth.auth_status
      Maps.map_list Maps.map_read Maps.map_write Maps.map_delete report_error
  map-end path (map_list id) (Response.maps ms) = either-success json_output _ _
  map-end path (map_list id) (Response.error message code) =
      report_error-end json_output _ message code
  map-end path (map_list id) _ = refl
  map-end path (map_read id name key) (Response.map_entries n es) = either-success json_output _ _
  map-end path (map_read id name key) (Response.error message code) =
      report_error-end json_output _ message code
  map-end path (map_read id name key) _ = refl
  map-end path (map_write id name key value) (Response.map_written n k) =
      either-success json_output _ _
  map-end path (map_write id name key value) (Response.error message code) =
      report_error-end json_output _ message code
  map-end path (map_write id name key value) _ = refl
  map-end path (map_delete id name key) (Response.map_deleted n k) = either-success json_output _ _
  map-end path (map_delete id name key) (Response.error message code) =
      report_error-end json_output _ message code
  map-end path (map_delete id name key) _ = refl

  -- A command's end is the one that the response it reads calls for. For an answer to its request
  -- that is not an error it is a success, for an error it is exit status 1 with JSON output and the
  -- improved message without, and every other response is reported as unexpected.
  pub show-end :
      (path : String) (c : Commands) (r : Response)
      → (show f json_output c r).ended ≡ end_if (is_answer (request_of path c) r) json_output r
  unfolding show request_of is_answer end_if Programs.load Programs.unload Programs.attach
      Programs.detach Programs.list Auth.status Auth.ping Auth.unlock Auth.lock Auth.auth_status
      Maps.map_list Maps.map_read Maps.map_write Maps.map_delete report_error
  show-end path (Commands.load p name) (Response.loaded id n ty warning) =
      either-success json_output _ _
  show-end path (Commands.load p name) (Response.error message code) =
      report_error-end json_output _ message code
  show-end path (Commands.load p name) _ = refl
  show-end path (Commands.unload id) (Response.unloaded i) = either-success json_output _ _
  show-end path (Commands.unload id) (Response.error message code) =
      report_error-end json_output _ message code
  show-end path (Commands.unload id) _ = refl
  show-end path (Commands.attach id target) (Response.attached_to i t) =
      either-success json_output _ _
  show-end path (Commands.attach id target) (Response.error message code) =
      report_error-end json_output _ message code
  show-end path (Commands.attach id target) _ = refl
  show-end path (Commands.detach id) (Response.detached i) = either-success json_output _ _
  show-end path (Commands.detach id) (Response.error message code) =
      report_error-end json_output _ message code
  show-end path (Commands.detach id) _ = refl
  show-end path Commands.list (Response.programs ps) = either-success json_output _ _
  show-end path Commands.list (Response.error message code) =
      report_error-end json_output _ message code
  show-end path Commands.list _ = refl
  show-end path Commands.status (Response.status_is version up loaded caps) =
      either-success json_output _ _
  show-end path Commands.status (Response.error message code) =
      report_error-end json_output _ message code
  show-end path Commands.status _ = refl
  show-end path Commands.ping (Response.pong) = either-success json_output _ _
  show-end path Commands.ping (Response.error message code) =
      report_error-end json_output _ message code
  show-end path Commands.ping _ = refl
  show-end path Commands.unlock (Response.unlocked) = either-success json_output _ _
  show-end path Commands.unlock (Response.error message code) =
      report_error-end json_output _ message code
  show-end path Commands.unlock _ = refl
  show-end path Commands.lock (Response.locked) = either-success json_output _ _
  show-end path Commands.lock (Response.error message code) =
      report_error-end json_output _ message code
  show-end path Commands.lock _ = refl
  show-end path Commands.auth (Response.auth_status_result authorized secs) =
      either-success json_output _ _
  show-end path Commands.auth (Response.error message code) =
      report_error-end json_output _ message code
  show-end path Commands.auth _ = refl
  show-end path (on_map c) r = map-end path c r
