-- ===== src/Daemon/Tests/Service.antt =====
-- Runs of the authorization and of whole requests.
use ebpf_assist.Prelude.{
  ℕ, ◌+◌, ◌≤◌, true, false, List, [], ◌∷◌, map, String, ◌<>◌, none, some, ok, err, refl, arith, ◌⊎◌,
  inl, inr, str_eq, if◌then◌else◌, ◌≡◌,
}
use ebpf_assist.Table
use ebpf_assist.Common.{Request, Response}
use ebpf_assist.Daemon.Loader.Invariant.{IsSound}
use ebpf_assist.Daemon.Auth.{
  AuthManager, AuthResult, authorized, not_authorized, challenge, load_action, attach_action,
  manage, cached, clear_cache, store, check_authorization, request_authorization, query_polkit,
  query_polkit_interactive,
}
use ebpf_assist.Daemon.Auth
use ebpf_assist.Daemon.Auth.Cache.{check_repeats}
use ebpf_assist.Daemon.Auth.Backed.{start, checks, check_backed}
use ebpf_assist.Daemon.Handler.{State, new_state, handle_request}
use ebpf_assist.Common.Answers.{is_answer}
use ebpf_assist.Daemon.Handler.Answers.{handle_request-is_answer}
use ebpf_assist.Daemon.Handler.Gate.{
  asked, denial, effect, handle_request_refused, handle_request_unreachable, load-unlock,
}
use ebpf_assist.Daemon.Handler.Invariant.{Reached, started, served, reached-IsSound, lock_reached}
use ebpf_assist.Daemon.Server.{Codec, handle_client}
use ebpf_assist.Daemon.Server.Session.{spoken, answers, handle_client-answers}
use ebpf_assist.Daemon.Tests.{DemoWorld, demo, world_at}

-- Polkit asks for a challenge at time 0, and grants at time 60.
abbrev before : DemoWorld
before = world_at 0 (false, true)

abbrev after : DemoWorld
after = world_at 60 (true, false)

abbrev cut_off : DemoWorld
cut_off = record before { reachable = false }

abbrev load_it : Request
load_it = Request.load "a.o" (some "probe")

abbrev idle : State demo
idle = new_state demo 0

-- A load that was refused with a challenge.
abbrev refused : State demo
unfolding handle_request
refused = (handle_request demo "1" idle load_it before).1

handle_request_refused_example : handle_request demo "1" idle load_it before ≡ (
  (asked demo idle load_action before).0,
  record idle { auth = (asked demo idle load_action before).1 },
  denial challenge,
)
unfolding new_state check_authorization query_polkit Auth.get_connection Auth.verdict cached store
    Table.get
handle_request_refused_example =
    handle_request_refused demo "1" idle load_it before load_action challenge refl refl (λ e. cc)

handle_request_unreachable_example :
    effect demo (handle_request demo "1" idle load_it cut_off)
    ≡ effect demo (
        handle_request demo "1"
          (record idle { auth = Auth.disabled })
          load_it
          (asked demo idle load_action cut_off).0)
unfolding new_state check_authorization query_polkit Auth.get_connection cached Table.get
handle_request_unreachable_example =
    handle_request_unreachable demo "1" idle load_it cut_off load_action
      "Failed to connect to system D-Bus" refl refl

load-unlock_example :
    handle_request demo "1"
      (handle_request demo "1" refused Request.unlock after).1
      (Request.load "b.o" none)
      after
    ≡ (after, (handle_request demo "1" refused Request.unlock after).1, denial challenge)
unfolding refused new_state Table.get Table.insert
load-unlock_example = load-unlock demo "1" refused "b.o" none after after refl refl

abbrev reached_refused : Reached demo refused
unfolding refused
reached_refused = served idle "1" load_it before (started 0)

reached-IsSound_example : IsSound demo refused.loader
reached-IsSound_example = reached-IsSound demo refused reached_refused

lock_reached_example : (handle_request demo "1" refused Request.lock after).1.auth.cache ≡ []
lock_reached_example = lock_reached demo refused "1" after reached_refused

abbrev granted : DemoWorld
granted = world_at 100 (true, false)

check_repeats_example :
    check_authorization demo 1000 load_action
      (check_authorization demo 1000 load_action Auth.new before).1
      granted
    ≡ (granted, (check_authorization demo 1000 load_action Auth.new before).1, ok challenge)
unfolding Auth.new check_authorization query_polkit Auth.get_connection cached store Table.get
check_repeats_example =
    check_repeats demo 1000 load_action Auth.new before granted challenge refl refl refl
      (omega arith)

-- The manager after a check that polkit has granted.
abbrev trusted : AuthManager
unfolding Auth.new check_authorization
trusted = (check_authorization demo 1000 load_action Auth.new after).1

-- A record of every grant that polkit has given, by the query that it answered.
abbrev Granted : ℕ × String → ℕ → Type 0
Granted key t =
    (a : AuthManager) × (w : DemoWorld) × (((query_polkit demo key.0 key.1 a w).2 ≡ ok authorized)
      ⊎ ((query_polkit_interactive demo key.0 key.1 a w).2 ≡ ok authorized))

check_backed_example :
    (t : ℕ) × Granted (1000, load_action) t
    × (demo.now (check_authorization demo 1000 load_action trusted granted).0
        ≤ t + trusted.cache_duration)
unfolding trusted query_polkit Auth.get_connection cached store Table.get Table.insert
check_backed_example =
    check_backed demo Granted (λ uid action a w e. (a, w, inl e))
      (λ uid action a w e. (a, w, inr e)) Auth.new trusted 1000 load_action granted refl
      (checks 1000 load_action after start) refl refl

abbrev say : Response → String
say Response.pong = "pong"
say _ = "other"

abbrev codec : Codec
codec = record {
  trim = λ line. line;
  parse = λ line. if str_eq line "ping" then ok Request.ping else err "expected value";
  print = λ response. ok (say response);
}

abbrev lines : List String
lines = "ping" ∷ "" ∷ "hello" ∷ []

handle_client-answers_example :
    ((handle_client demo codec "1" idle before lines).ended ≡ ok tt)
    × ((handle_client demo codec "1" idle before lines).written
        ≡ map
            (λ r. say r <> "\n")
            (answers demo codec "1" idle before (map codec.parse (spoken demo codec lines))))
handle_client-answers_example =
    handle_client-answers demo codec say "1" idle before lines (λ r. refl)

handle_request-is_answer_example :
    is_answer load_it (handle_request demo "1" idle load_it cut_off).2 ≡ true
handle_request-is_answer_example = handle_request-is_answer demo "1" idle load_it cut_off
