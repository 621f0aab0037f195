-- ===== src/Common/Answers.antt =====
-- crates/ebpf-assist-common/src/lib.rs: which responses answer which request. It is the contract of
-- the protocol, which the daemon keeps and the clients rely on; an error answers every request.
use ebpf_assist.Prelude.{Bool, true, false}
use ebpf_assist.Common.{Request, Response}

unfoldable pub is_answer : Request → Response → Bool
is_answer _ (Response.error message code) = true
is_answer (Request.load path name) (Response.loaded id n ty warning) = true
is_answer (Request.unload id) (Response.unloaded i) = true
is_answer (Request.attach id target) (Response.attached_to i t) = true
is_answer (Request.detach id) (Response.detached i) = true
is_answer Request.list_all (Response.programs ps) = true
is_answer Request.status (Response.status_is version up loaded caps) = true
is_answer Request.ping Response.pong = true
is_answer Request.unlock Response.unlocked = true
is_answer Request.lock Response.locked = true
is_answer Request.auth_status (Response.auth_status_result authorized secs) = true
is_answer (Request.map_list id) (Response.maps ms) = true
is_answer (Request.map_read id name key) (Response.map_entries n es) = true
is_answer (Request.map_write id name key value) (Response.map_written n k) = true
is_answer (Request.map_delete id name key) (Response.map_deleted n k) = true
is_answer _ _ = false

unfoldable pub is_error : Response → Bool
is_error (Response.error message code) = true
is_error _ = false
