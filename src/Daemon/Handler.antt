-- ===== src/Daemon/Handler.antt =====
-- crates/ebpf-assistd/src/handler.rs: one request of a client. The state's lock is held from each
-- reading of the state to the answer, so the effects of a request are the steps below; between the
-- check of the authorization and the operation the lock is free.
pub mod Answers
pub mod Codes
pub mod Gate
pub mod Invariant
use ebpf_assist.Prelude.{
  ℕ, ◌-◌, Bool, true, false, ◌&&◌, ◌||◌, List, [], ◌∷◌, String, ◌<>◌, Option, none, some, Result,
  ok, err, if◌then◌else◌, contains,
}
use ebpf_assist.Common.{
  Request, Response, ErrorCode, policy_violation, map_not_found, invalid_key, invalid_value,
  program_not_found, not_found, capability_error, verifier_error, already_attached, not_attached,
  internal, auth_required, auth_denied,
}
use ebpf_assist.Daemon.Host.{Host}
use ebpf_assist.Daemon.Caps.{check_permitted_caps}
use ebpf_assist.Daemon.Loader.{Loader, LoadResult}
use ebpf_assist.Daemon.Loader
use ebpf_assist.Daemon.Maps
use ebpf_assist.Daemon.Auth.{
  AuthManager, AuthResult, authorized, not_authorized, challenge, manage, load_action,
  attach_action, clear_cache, check_authorization, request_authorization,
}
use ebpf_assist.Daemon.Auth

-- `error_response`: the code is chosen by what the message contains.
unfoldable pub error_code : (message : String) → ErrorCode
unfolding contains
error_code message =
    if contains message "Policy violation"
    then policy_violation
    else if contains message "Map not found"
    then map_not_found
    else if contains message "Invalid" && contains message "key"
    then invalid_key
    else if contains message "Invalid" && contains message "value"
    then invalid_value
    else if contains message "Program not found"
    then program_not_found
    else if contains message "not found" || contains message "No such file"
    then not_found
    else if contains message "Permission" || contains message "Capability"
    then capability_error
    else if contains message "verifier"
    then verifier_error
    else if contains message "already attached"
    then already_attached
    else if contains message "not attached"
    then not_attached
    else internal

abbrev pub error_response : (message : String) → Response
error_response message = Response.error message (error_code message)

-- The answer to `Unlock`.
unfoldable pub unlock_response : Result String AuthResult → Response
unlock_response (ok authorized) = Response.unlocked
unlock_response (ok not_authorized) = Response.error "Authorization denied by polkit" auth_denied
unlock_response (ok challenge) = Response.error "Authorization challenge required" auth_required
unlock_response (err e) = Response.error ("Authorization error: " <> e) internal

-- The match of `check_auth`: the error response, or none to go on. A failed check goes on.
unfoldable pub refusal : Result String AuthResult → Option Response
refusal (ok authorized) = none
refusal (ok challenge) =
    some (Response.error "Authorization required. Run 'ebpf-assist unlock' first." auth_required)
refusal (ok not_authorized) = some (Response.error "Not authorized for this operation" auth_denied)
refusal (err e) = none

module _ (h : Host) where
  open h use {World}

  pub record State : Type 0 where
    pub loader : Loader h
    pub auth : AuthManager
    pub start_time : ℕ
    pub client_uid : Option ℕ

  unfoldable pub new_state : (now : ℕ) → State
  unfolding Loader.new Auth.new
  new_state now = record {
    loader = Loader.new h;
    auth = Auth.new;
    start_time = now;
    client_uid = none;
  }

  unfoldable pub without_auth : (now : ℕ) → State
  unfolding Loader.new Auth.disabled
  without_auth now = record {
    loader = Loader.new h;
    auth = Auth.disabled;
    start_time = now;
    client_uid = none;
  }

  -- `client_uid.unwrap_or_else(getuid)`
  abbrev pub uid_of : State → ℕ
  uid_of s = elim s.client_uid [ none ↦ h.getuid | some uid ↦ uid ]

  -- The new state of the world and of the daemon, and the response.
  abbrev pub Outcome : Type 0
  Outcome = World × State × Response

  abbrev checked :
      State → World × AuthManager × Result String AuthResult → World × State × Option Response
  checked s (w, a, r) = (w, record s { auth = a }, refusal r)

  unfoldable pub check_auth : String → State → World → World × State × Option Response
  unfolding check_authorization refusal
  check_auth action s w = checked s (check_authorization h (uid_of s) action s.auth w)

  abbrev pub after_check : World × State × Option Response → (State → World → Outcome) → Outcome
  after_check (w, s, none) act = act s w
  after_check (w, s, some refused) act = (w, s, refused)

  -- The end of an operation of the loader that changes it, and of one that only answers.
  abbrev pub answer_change :
      State → (Loader h → Response) → World × Result String (Loader h) → Outcome
  answer_change s reply (w, ok ld) = (w, record s { loader = ld }, reply ld)
  answer_change s reply (w, err e) = (w, s, error_response e)

  abbrev pub answer_read : {A : Type 0} → State → (A → Response) → World × Result String A → Outcome
  answer_read s reply (w, ok a) = (w, s, reply a)
  answer_read s reply (w, err e) = (w, s, error_response e)

  abbrev pub answer_load : State → World × Result String (Loader h × LoadResult h) → Outcome
  answer_load s (w, ok (ld, r)) = (
    w,
    record s { loader = ld },
    Response.loaded r.info.id r.info.name r.info.program_type r.warning,
  )
  answer_load s (w, err e) = (w, s, error_response e)

  abbrev answer_unlock : State → World × AuthManager × Result String AuthResult → Outcome
  answer_unlock s (w, a, r) = (w, record s { auth = a }, unlock_response r)

  abbrev or_default : Result String (List String) → List String
  or_default (ok xs) = xs
  or_default (err e) = []

  unfoldable pub handle_request : (version : String) → State → Request → World → Outcome
  unfolding check_auth Loader.load Loader.attach Loader.detach Loader.unload unlock_response
  handle_request version s (Request.load path name) w =
      after_check (check_auth load_action s w)
        λ s' w'. answer_load s' (Loader.load h s'.loader path name w')
  handle_request version s (Request.unload id) w =
      answer_change s (λ _. Response.unloaded id) (Loader.unload h s.loader id w)
  handle_request version s (Request.attach id target) w =
      after_check (check_auth attach_action s w) λ s' w'.
        answer_change s' (λ _. Response.attached_to id target)
          (Loader.attach h s'.loader id target w')
  handle_request version s (Request.detach id) w =
      answer_change s (λ _. Response.detached id) (Loader.detach h s.loader id w)
  handle_request version s Request.list_all w = (w, s, Response.programs (Loader.list h s.loader))
  handle_request version s Request.status w =
      let (w', caps) = check_permitted_caps h w in
      (
        w',
        s,
        Response.status_is version (h.now w' - s.start_time) (Loader.count h s.loader)
            (or_default caps),
      )
  handle_request version s Request.ping w = (w, s, Response.pong)
  handle_request version s Request.unlock w =
      answer_unlock s (request_authorization h (uid_of s) manage s.auth w)
  handle_request version s Request.lock w =
      (w, record s { auth = clear_cache s.auth s.client_uid }, Response.locked)
  handle_request version s Request.auth_status w = (w, s, Response.auth_status_result false 0)
  handle_request version s (Request.map_list id) w =
      answer_read s Response.maps (Maps.list_maps h s.loader id w)
  handle_request version s (Request.map_read id name key) w =
      answer_read s (Response.map_entries name) (Maps.read_map h s.loader id name key w)
  handle_request version s (Request.map_write id name key value) w =
      answer_read s (λ _. Response.map_written name key)
        (Maps.write_map h s.loader id name key value w)
  handle_request version s (Request.map_delete id name key) w =
      answer_read s (λ _. Response.map_deleted name key)
        (Maps.delete_map_entry h s.loader id name key w)
