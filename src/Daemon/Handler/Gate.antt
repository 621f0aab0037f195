-- ===== src/Daemon/Handler/Gate.antt =====
-- The authorization of requests: which requests it guards, and what happens on each answer.
use ebpf_assist.Prelude.{
  String, str_eq_iff, Option, none, some, Result, ok, err, true, ◌≡◌, ◌≢◌, refl, ap, ◌∙◌, arith,
}
use ebpf_assist.Common.{Request, Response, auth_required, auth_denied}
use ebpf_assist.Daemon.Host.{Host}
use ebpf_assist.Daemon.Loader.{Loader, LoadResult}
use ebpf_assist.Daemon.Loader
use ebpf_assist.Daemon.Auth.{
  AuthManager, AuthResult, authorized, not_authorized, challenge, manage, load_action,
  attach_action, disabled, cached, check_authorization, request_authorization,
}
use ebpf_assist.Daemon.Auth.Stale.{check-request}
use ebpf_assist.Daemon.Handler.{
  State, Outcome, refusal, uid_of, check_auth, after_check, checked, answer_load, answer_change,
  handle_request,
}

-- The action a request needs, if it needs one.
abbrev pub required : Request → Option String
required (Request.load path name) = some load_action
required (Request.attach id target) = some attach_action
required _ = none

-- What a client reads when polkit does not grant the action.
abbrev pub denial : AuthResult → Response
denial authorized = Response.pong
denial challenge =
    Response.error "Authorization required. Run 'ebpf-assist unlock' first." auth_required
denial not_authorized = Response.error "Not authorized for this operation" auth_denied

refusal-denial : (r : AuthResult) → r ≢ authorized → refusal (ok r) ≡ some (denial r)
unfolding refusal
refusal-denial authorized ne = ground (arith, ne)
refusal-denial challenge ne = refl
refusal-denial not_authorized ne = refl

load_ne_manage : load_action ≢ manage
load_ne_manage same = let differ = (str_eq_iff load_action manage).1 same in cc

module _ (h : Host) where
  open h use {World}

  -- The check that a request is subject to.
  abbrev pub asked : State h → String → World → World × AuthManager × Result String AuthResult
  asked s action w = check_authorization h (uid_of h s) action s.auth w

  checked_refused :
      (s : State h) (q : World × AuthManager × Result String AuthResult)
      (act : State h → World → Outcome h) {r : AuthResult}
      → q.2 ≡ ok r
      → r ≢ authorized
      → after_check h (checked h s q) act ≡ (q.0, record s { auth = q.1 }, denial r)
  checked_refused s (w, a, ok x) act {r} e ne =
      let same : x ≡ r = cc in rw (same, refusal-denial r ne)
  checked_refused s (w, a, err m) act e ne = cc

  checked_passed :
      (s : State h) (q : World × AuthManager × Result String AuthResult)
      (act : State h → World → Outcome h)
      → refusal q.2 ≡ none
      → after_check h (checked h s q) act ≡ act (record s { auth = q.1 }) q.0
  checked_passed s (w, a, r) act e = rw e

  -- A request that needs an action and is not granted it, neither by polkit nor by the cache, is
  -- answered with the refusal: no program is loaded or attached, the loader is as before, and
  -- outside only the check itself has acted.
  pub handle_request_refused :
      (version : String) (s : State h) (req : Request) (w : World) (action : String)
      (r : AuthResult)
      → required req ≡ some action
      → (asked s action w).2 ≡ ok r
      → r ≢ authorized
      → handle_request h version s req w
        ≡ ((asked s action w).0, record s { auth = (asked s action w).1 }, denial r)
  unfolding handle_request check_auth
  handle_request_refused version s (Request.load path name) w action r need answer ne =
      let same : load_action ≡ action = cc in
      checked_refused s (asked s load_action w) _ (rw (← same) at answer) ne
      ∙ ap (λ a. ((asked s a w).0, record s { auth = (asked s a w).1 }, denial r)) same
  handle_request_refused version s (Request.attach id target) w action r need answer ne =
      let same : attach_action ≡ action = cc in
      checked_refused s (asked s attach_action w) _ (rw (← same) at answer) ne
      ∙ ap (λ a. ((asked s a w).0, record s { auth = (asked s a w).1 }, denial r)) same
  handle_request_refused version s _ w action r need answer ne = cc

  -- The parts of an outcome that do not speak of the authorization.
  abbrev pub effect : Outcome h → World × Loader h × Response
  effect (w, s, response) = (w, s.loader, response)

  effect-load :
      (s t : State h) (q : World × Result String (Loader h × LoadResult h))
      → s.loader ≡ t.loader
      → effect (answer_load h s q) ≡ effect (answer_load h t q)
  effect-load s t (w, ok (ld, r)) e = refl
  effect-load s t (w, err m) e = rw e

  effect-change :
      (s t : State h) (reply : Loader h → Response) (q : World × Result String (Loader h))
      → s.loader ≡ t.loader
      → effect (answer_change h s reply q) ≡ effect (answer_change h t reply q)
  effect-change s t reply (w, ok ld) e = refl
  effect-change s t reply (w, err m) e = rw e

  passes :
      (version : String) (s : State h) (req : Request) (w : World) (action : String)
      → required req ≡ some action
      → refusal (asked s action w).2 ≡ none
      → effect (handle_request h version s req w)
        ≡ effect (handle_request h version (record s { auth = disabled }) req (asked s action w).0)
  unfolding handle_request check_auth check_authorization disabled refusal
  passes version s (Request.load path name) w action need open_gate =
      let same : load_action ≡ action = cc in
      rw
        (
          ← same,
          checked_passed s (asked s load_action w)
              (λ s' w'. answer_load h s' (Loader.load h s'.loader path name w'))
              (rw (← same) at open_gate),
        )
        (effect-load _ _ (Loader.load h s.loader path name (asked s load_action w).0) refl)
  passes version s (Request.attach id target) w action need open_gate =
      let same : attach_action ≡ action = cc in
      rw
        (
          ← same,
          checked_passed s (asked s attach_action w)
              (λ s' w'.
                answer_change h s' (λ x. Response.attached_to id target)
                  (Loader.attach h s'.loader id target w'))
              (rw (← same) at open_gate),
        )
        (effect-change _ _ _ (Loader.attach h s.loader id target (asked s attach_action w).0) refl)
  passes version s _ w action need open_gate = cc

  -- A check that fails, because the bus or polkit cannot be reached or the reply cannot be read,
  -- does not stop the request: it has the effect and the response it has when the authorization is
  -- disabled.
  pub handle_request_unreachable :
      (version : String) (s : State h) (req : Request) (w : World) (action e : String)
      → required req ≡ some action
      → (asked s action w).2 ≡ err e
      → effect (handle_request h version s req w)
        ≡ effect (handle_request h version (record s { auth = disabled }) req (asked s action w).0)
  unfolding refusal
  handle_request_unreachable version s req w action e need failed =
      passes version s req w action need (ap refusal failed)

  unlock-auth :
      (version : String) (s : State h) (w : World)
      → (handle_request h version s Request.unlock w).1
        ≡ record s { auth = (request_authorization h (uid_of h s) manage s.auth w).1 }
  unfolding handle_request
  unlock-auth version s w = refl

  -- While the cache of an enabled manager holds the answer that a load needs a challenge, and that
  -- answer has not expired, a load after an unlock is refused with the request to unlock, also if
  -- polkit has granted the unlock: the load is answered from the cache, and changes nothing.
  pub load-unlock :
      (version : String) (s : State h) (path : String) (name : Option String) (w v : World)
      → s.auth.enabled ≡ true
      → cached s.auth (uid_of h s, load_action) (h.now v) ≡ some challenge
      → let unlocked = (handle_request h version s Request.unlock w).1 in
        handle_request h version unlocked (Request.load path name) v
        ≡ (v, unlocked, denial challenge)
  load-unlock version s path name w v on hit =
      let unlocked = record s { auth = (request_authorization h (uid_of h s) manage s.auth w).1 } in
      let answer =
        check-request h (uid_of h s) load_action manage s.auth w v challenge on load_ne_manage
          hit in
      rw (unlock-auth version s w) (
        handle_request_refused version unlocked (Request.load path name) v load_action challenge
          refl (ap (λ q. q.2) answer) (λ e. cc)
        ∙ ap (λ q. (q.0, record s { auth = q.1 }, denial challenge)) answer)
