-- ===== src/Daemon/Handler/Invariant.antt =====
-- What holds of the daemon's state after any sequence of requests. The world may change between two
-- requests, so each of them is served in a world of its own.
use ebpf_assist.Prelude.{ℕ, String, Option, none, some, Result, ok, err, [], ◌≡◌, refl, ◌∙◌}
use ebpf_assist.Common.{ProgramId, Request, Response}
use ebpf_assist.Daemon.Host.{Host}
use ebpf_assist.Daemon.Loader.{Loader, LoadResult}
use ebpf_assist.Daemon.Loader
use ebpf_assist.Daemon.Loader.Invariant.{
  IsSound, new-IsSound, load-IsSound, attach-IsSound, detach-IsSound, unload-IsSound,
}
use ebpf_assist.Daemon.Auth.{clear_cache, AuthManager, AuthResult, load_action, attach_action}
use ebpf_assist.Daemon.Handler.Gate.{asked}
use ebpf_assist.Daemon.Handler.{
  State, Outcome, refusal, check_auth, checked, after_check, answer_load, answer_change,
  answer_read, handle_request, new_state, without_auth,
}

module _ (h : Host) where
  open h use {World}

  -- A state of the daemon after some requests.
  pub data Reached : State h → Type 0 where
    started : (now : ℕ) → Reached (new_state h now)
    started_open : (now : ℕ) → Reached (without_auth h now)
    served :
        (s : State h) (version : String) (req : Request) (w : World)
        → Reached s
        → Reached (handle_request h version s req w).1

  -- What follows the check of a load and of an attach.
  abbrev load_act : String → Option String → State h → World → Outcome h
  load_act path name t v = answer_load h t (Loader.load h t.loader path name v)

  abbrev attach_act : ProgramId → String → State h → World → Outcome h
  attach_act id target t v =
      answer_change h t (λ x. Response.attached_to id target) (Loader.attach h t.loader id target v)

  -- A property of states that does not depend on the authorization.
  abbrev IsBlind : (State h → Type 0) → Type 0
  IsBlind P = (s : State h) (a : AuthManager) → P s → P (record s { auth = a })

  after_check_keeps :
      (P : State h → Type 0)
      → IsBlind P
      → (s : State h) (q : World × AuthManager × Result String AuthResult)
        (act : State h → World → Outcome h)
      → ((t : State h) (w : World) → P t → P (act t w).1)
      → P s
      → P (after_check h (checked h s q) act).1
  after_check_keeps P blind s (w, a, r) act keeps p = go (refusal r)
    where
      go : (o : Option Response) → P (after_check h (w, record s { auth = a }, o) act).1
      go none = keeps (record s { auth = a }) w (blind s a p)
      go (some refused) = blind s a p

  answer_load-IsSound :
      (s : State h) (q : World × Result String (Loader h × LoadResult h))
      → ((ld : Loader h) (r : LoadResult h) → q.1 ≡ ok (ld, r) → IsSound h ld)
      → IsSound h s.loader
      → IsSound h (answer_load h s q).1.loader
  answer_load-IsSound s (w, ok (ld, r)) new_sound sound = new_sound ld r refl
  answer_load-IsSound s (w, err e) new_sound sound = sound

  answer_change-IsSound :
      (s : State h) (reply : Loader h → Response) (q : World × Result String (Loader h))
      → ((ld : Loader h) → q.1 ≡ ok ld → IsSound h ld)
      → IsSound h s.loader
      → IsSound h (answer_change h s reply q).1.loader
  answer_change-IsSound s reply (w, ok ld) new_sound sound = new_sound ld refl
  answer_change-IsSound s reply (w, err e) new_sound sound = sound

  answer_read_keeps :
      {A : Type 0} (s : State h) (reply : A → Response) (q : World × Result String A)
      → (answer_read h s reply q).1 ≡ s
  answer_read_keeps s reply (w, ok a) = refl
  answer_read_keeps s reply (w, err e) = refl

  -- Every request keeps the loader sound.
  pub handle_request-IsSound :
      (version : String) (s : State h) (req : Request) (w : World)
      → IsSound h s.loader
      → IsSound h (handle_request h version s req w).1.loader
  unfolding handle_request check_auth
  handle_request-IsSound version s (Request.load path name) w sound =
      after_check_keeps (λ t. IsSound h t.loader) (λ t a p. p) s (asked h s load_action w)
        (load_act path name)
        (λ t v p.
          answer_load-IsSound t (Loader.load h t.loader path name v)
            (λ ld r e. load-IsSound h t.loader path name v p e) p)
        sound
  handle_request-IsSound version s (Request.attach id target) w sound =
      after_check_keeps (λ t. IsSound h t.loader) (λ t a p. p) s (asked h s attach_action w)
        (attach_act id target)
        (λ t v p.
          answer_change-IsSound t (λ x. Response.attached_to id target)
            (Loader.attach h t.loader id target v)
            (λ ld e. attach-IsSound h t.loader id target v p e) p)
        sound
  handle_request-IsSound version s (Request.unload id) w sound =
      answer_change-IsSound s (λ x. Response.unloaded id) (Loader.unload h s.loader id w)
        (λ ld e. unload-IsSound h s.loader id w sound e) sound
  handle_request-IsSound version s (Request.detach id) w sound =
      answer_change-IsSound s (λ x. Response.detached id) (Loader.detach h s.loader id w)
        (λ ld e. detach-IsSound h s.loader id w sound e) sound
  handle_request-IsSound version s (Request.map_list id) w sound = rw (answer_read_keeps) sound
  handle_request-IsSound version s (Request.map_read id name key) w sound =
      rw (answer_read_keeps) sound
  handle_request-IsSound version s (Request.map_write id name key value) w sound =
      rw (answer_read_keeps) sound
  handle_request-IsSound version s (Request.map_delete id name key) w sound =
      rw (answer_read_keeps) sound
  handle_request-IsSound version s _ w sound = sound

  answer_load-client_uid :
      (s : State h) (q : World × Result String (Loader h × LoadResult h))
      → (answer_load h s q).1.client_uid ≡ s.client_uid
  answer_load-client_uid s (w, ok (ld, r)) = refl
  answer_load-client_uid s (w, err e) = refl

  answer_change-client_uid :
      (s : State h) (reply : Loader h → Response) (q : World × Result String (Loader h))
      → (answer_change h s reply q).1.client_uid ≡ s.client_uid
  answer_change-client_uid s reply (w, ok ld) = refl
  answer_change-client_uid s reply (w, err e) = refl

  handle_request-client_uid :
      (version : String) (s : State h) (req : Request) (w : World)
      → (handle_request h version s req w).1.client_uid ≡ s.client_uid
  unfolding handle_request check_auth
  handle_request-client_uid version s (Request.load path name) w =
      after_check_keeps (λ t. t.client_uid ≡ s.client_uid) (λ t a p. p) s (asked h s load_action w)
        (load_act path name)
        (λ t v p. answer_load-client_uid t (Loader.load h t.loader path name v) ∙ p) refl
  handle_request-client_uid version s (Request.attach id target) w =
      after_check_keeps (λ t. t.client_uid ≡ s.client_uid) (λ t a p. p) s
        (asked h s attach_action w) (attach_act id target)
        (λ t v p.
          answer_change-client_uid t (λ x. Response.attached_to id target)
            (Loader.attach h t.loader id target v)
          ∙ p)
        refl
  handle_request-client_uid version s (Request.unload id) w =
      answer_change-client_uid s (λ x. Response.unloaded id) (Loader.unload h s.loader id w)
  handle_request-client_uid version s (Request.detach id) w =
      answer_change-client_uid s (λ x. Response.detached id) (Loader.detach h s.loader id w)
  handle_request-client_uid version s (Request.map_list id) w = rw (answer_read_keeps) refl
  handle_request-client_uid version s (Request.map_read id name key) w = rw (answer_read_keeps) refl
  handle_request-client_uid version s (Request.map_write id name key value) w =
      rw (answer_read_keeps) refl
  handle_request-client_uid version s (Request.map_delete id name key) w =
      rw (answer_read_keeps) refl
  handle_request-client_uid version s _ w = refl

  -- After any requests every entry of the loader is sound: it is filed under its own id, it is
  -- marked attached exactly when it has an attach point, the policy does not deny its type, and its
  -- object has a program of its name and type.
  pub reached-IsSound : (s : State h) → Reached s → IsSound h s.loader
  unfolding new_state without_auth
  reached-IsSound _ (started now) = new-IsSound h
  reached-IsSound _ (started_open now) = new-IsSound h
  reached-IsSound _ (served s version req w before) =
      handle_request-IsSound version s req w (reached-IsSound s before)

  reached-client_uid : (s : State h) → Reached s → s.client_uid ≡ none
  unfolding new_state without_auth
  reached-client_uid _ (started now) = refl
  reached-client_uid _ (started_open now) = refl
  reached-client_uid _ (served s version req w before) =
      handle_request-client_uid version s req w ∙ reached-client_uid s before

  -- After any requests a lock empties the whole cache: it revokes the answers for every user.
  pub lock_reached :
      (s : State h) (version : String) (w : World)
      → Reached s
      → (handle_request h version s Request.lock w).1.auth.cache ≡ []
  unfolding handle_request clear_cache
  lock_reached s version w before = rw (reached-client_uid s before) refl
