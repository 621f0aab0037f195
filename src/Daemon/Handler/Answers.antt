-- ===== src/Daemon/Handler/Answers.antt =====
-- crates/ebpf-assistd/src/handler.rs: the kind of each response.
use ebpf_assist.Prelude.{true, String, Option, none, some, Result, ok, err, ◌≡◌, refl, arith}
use ebpf_assist.Common.{Request, Response}
use ebpf_assist.Common.Answers.{is_answer}
use ebpf_assist.Daemon.Host.{Host}
use ebpf_assist.Daemon.Auth.{
  AuthResult, authorized, not_authorized, challenge, load_action, attach_action,
  check_authorization, request_authorization, manage,
}
use ebpf_assist.Daemon.Loader.{Loader, LoadResult}
use ebpf_assist.Daemon.Loader
use ebpf_assist.Daemon.Maps
use ebpf_assist.Daemon.Handler.{
  State, Outcome, handle_request, unlock_response, refusal, check_auth, after_check, answer_change,
  answer_read, answer_load, uid_of,
}

module _ (h : Host) where
  open h use {World}

  -- The response of an outcome answers the request.
  abbrev Answered : Request → Outcome h → Type 0
  Answered request o = is_answer request o.2 ≡ true

  after_check-Answered :
      (request : Request) (o : World × State h × Option Response)
      (act : State h → World → Outcome h)
      → ((s : State h) (w : World) → Answered request (act s w))
      → ((r : Response) → o.2 ≡ some r → is_answer request r ≡ true)
      → Answered request (after_check h o act)
  after_check-Answered request (w, s, none) act answers refused = answers s w
  after_check-Answered request (w, s, some r) act answers refused = refused r refl

  change-Answered :
      (request : Request) (s : State h) (reply : Loader h → Response)
      (o : World × Result String (Loader h))
      → ((ld : Loader h) → is_answer request (reply ld) ≡ true)
      → Answered request (answer_change h s reply o)
  unfolding is_answer
  change-Answered request s reply (w, ok ld) answers = answers ld
  change-Answered request s reply (w, err e) answers = refl

  read-Answered :
      {A : Type 0} (request : Request) (s : State h) (reply : A → Response)
      (o : World × Result String A)
      → ((a : A) → is_answer request (reply a) ≡ true)
      → Answered request (answer_read h s reply o)
  unfolding is_answer
  read-Answered request s reply (w, ok a) answers = answers a
  read-Answered request s reply (w, err e) answers = refl

  load-Answered :
      (path : String) (name : Option String) (s : State h)
      (o : World × Result String (Loader h × LoadResult h))
      → Answered (Request.load path name) (answer_load h s o)
  unfolding is_answer
  load-Answered path name s (w, ok (ld, r)) = refl
  load-Answered path name s (w, err e) = refl

  refusal-answer :
      (request : Request) (r : Result String AuthResult) {response : Response}
      → refusal r ≡ some response
      → is_answer request response ≡ true
  unfolding refusal is_answer
  refusal-answer request (ok authorized) e = cc
  refusal-answer request (ok challenge) e = grind arith
  refusal-answer request (ok not_authorized) e = grind arith
  refusal-answer request (err m) e = cc

  unlock_response-answer :
      (r : Result String AuthResult) → is_answer Request.unlock (unlock_response r) ≡ true
  unfolding unlock_response is_answer
  unlock_response-answer (ok authorized) = refl
  unlock_response-answer (ok not_authorized) = refl
  unlock_response-answer (ok challenge) = refl
  unlock_response-answer (err e) = refl

  -- Whatever the request, the world and the state of the daemon, the response is the one that the
  -- protocol has for that request, or an error.
  pub handle_request-is_answer :
      (version : String) (s : State h) (request : Request) (w : World)
      → is_answer request (handle_request h version s request w).2 ≡ true
  unfolding handle_request check_auth is_answer
  handle_request-is_answer version s (Request.load path name) w =
      after_check-Answered (Request.load path name) (check_auth h load_action s w)
        (λ s' w'. answer_load h s' (Loader.load h s'.loader path name w'))
        (λ s' w'. load-Answered path name s' (Loader.load h s'.loader path name w'))
        λ r.
          refusal-answer (Request.load path name)
            (check_authorization h (uid_of h s) load_action s.auth w).2
  handle_request-is_answer version s (Request.unload id) w =
      change-Answered (Request.unload id) s (λ _. Response.unloaded id)
        (Loader.unload h s.loader id w) λ _. refl
  handle_request-is_answer version s (Request.attach id target) w =
      after_check-Answered (Request.attach id target) (check_auth h attach_action s w)
        (λ s' w'.
          answer_change h s' (λ _. Response.attached_to id target)
            (Loader.attach h s'.loader id target w'))
        (λ s' w'.
          change-Answered (Request.attach id target) s' (λ _. Response.attached_to id target)
            (Loader.attach h s'.loader id target w') λ _. refl)
        λ r.
          refusal-answer (Request.attach id target)
            (check_authorization h (uid_of h s) attach_action s.auth w).2
  handle_request-is_answer version s (Request.detach id) w =
      change-Answered (Request.detach id) s (λ _. Response.detached id)
        (Loader.detach h s.loader id w) λ _. refl
  handle_request-is_answer version s Request.list_all w = refl
  handle_request-is_answer version s Request.status w = refl
  handle_request-is_answer version s Request.ping w = refl
  handle_request-is_answer version s Request.unlock w =
      unlock_response-answer (request_authorization h (uid_of h s) manage s.auth w).2
  handle_request-is_answer version s Request.lock w = refl
  handle_request-is_answer version s Request.auth_status w = refl
  handle_request-is_answer version s (Request.map_list id) w =
      read-Answered (Request.map_list id) s Response.maps (Maps.list_maps h s.loader id w) λ _. refl
  handle_request-is_answer version s (Request.map_read id name key) w =
      read-Answered (Request.map_read id name key) s (Response.map_entries name)
        (Maps.read_map h s.loader id name key w) λ _. refl
  handle_request-is_answer version s (Request.map_write id name key value) w =
      read-Answered (Request.map_write id name key value) s (λ _. Response.map_written name key)
        (Maps.write_map h s.loader id name key value w) λ _. refl
  handle_request-is_answer version s (Request.map_delete id name key) w =
      read-Answered (Request.map_delete id name key) s (λ _. Response.map_deleted name key)
        (Maps.delete_map_entry h s.loader id name key w) λ _. refl
