-- ===== src/Daemon/Auth.antt =====
-- crates/ebpf-assistd/src/auth.rs: polkit's answers, and the cache of them. The clock counts
-- seconds. The D-Bus connection is a flag that tells whether it is open.
pub mod Backed
pub mod Cache
pub mod Stale
use ebpf_assist.Prelude.{
  ℕ, ◌+◌, ◌*◌, Bool, true, false, not, [], String, Option, none, some, Result, ok, err,
  if◌then◌else◌, ltb, nat_eq, pair_key,
}
use ebpf_assist.Table.{Table}
use ebpf_assist.Table
use ebpf_assist.Daemon.Host.{Host}
use ebpf_assist.Daemon.Io.{context_of}

-- `DEFAULT_CACHE_DURATION`
abbrev pub default_cache_duration : ℕ
default_cache_duration = 15 * 60

-- `actions`
abbrev pub manage : String
manage = "org.ebpf-assist.manage"

abbrev pub load_action : String
load_action = "org.ebpf-assist.load"

abbrev pub attach_action : String
attach_action = "org.ebpf-assist.attach"

pub data AuthResult : Type 0 where
  authorized not_authorized challenge : AuthResult

pub record CacheEntry : Type 0 where
  pub result : AuthResult
  pub expires : ℕ

pub record AuthManager : Type 0 where
  pub connection : Bool
  pub cache : Table (ℕ × String) CacheEntry
  pub cache_duration : ℕ
  pub enabled : Bool

unfoldable pub new : AuthManager
new = record {
  connection = false;
  cache = [];
  cache_duration = default_cache_duration;
  enabled = true;
}

unfoldable pub disabled : AuthManager
disabled = record {
  connection = false;
  cache = [];
  cache_duration = default_cache_duration;
  enabled = false;
}

unfoldable pub with_cache_duration : AuthManager → ℕ → AuthManager
with_cache_duration a duration = record a { cache_duration = duration }

-- The verdict of `query_polkit` and of `query_polkit_interactive`.
unfoldable pub verdict : Bool × Bool → AuthResult
verdict (true, challenged) = authorized
verdict (false, true) = challenge
verdict (false, false) = not_authorized

unfoldable pub verdict_interactive : Bool × Bool → AuthResult
verdict_interactive (true, challenged) = authorized
verdict_interactive (false, challenged) = not_authorized

-- The lookup in `check_authorization`: an entry counts while it has not expired.
abbrev still_valid : (now : ℕ) → Option CacheEntry → Option AuthResult
still_valid now none = none
still_valid now (some entry) = if ltb now entry.expires then some entry.result else none

unfoldable pub cached : AuthManager → ℕ × String → (now : ℕ) → Option AuthResult
cached a key now = still_valid now (Table.get a.cache key)

unfoldable pub store : AuthManager → ℕ × String → AuthResult → (now : ℕ) → AuthManager
store a key result now = record a {
  cache = Table.insert a.cache key (record { result = result; expires = now + a.cache_duration });
}

unfoldable pub clear_cache : AuthManager → Option ℕ → AuthManager
clear_cache a (some uid) = record a {
  cache = Table.retain (λ (key : ℕ × String). not (nat_eq key.0 uid)) a.cache;
}
clear_cache a none = record a { cache = [] }

module _ (h : Host) where
  open h use {World, Reply}

  -- A method of the manager, which may have changed the manager also when it fails.
  abbrev pub Act : Type 0 → Type 0
  Act A = AuthManager → World → World × AuthManager × Result String A

  abbrev pub and_then :
      {A B : Type 0}
      → World × AuthManager × Result String A
      → (A → Act B)
      → World × AuthManager × Result String B
  and_then (w, a, ok x) f = f x a w
  and_then (w, a, err e) f = (w, a, err e)

  abbrev connected :
      AuthManager
      → World
      → Result String (Unit {0})
      → World × AuthManager × Result String (Unit {0})
  connected a w (ok _) = (w, record a { connection = true }, ok tt)
  connected a w (err _) = (w, a, err "Failed to connect to system D-Bus")

  unfoldable pub get_connection : Act (Unit {0})
  get_connection a w =
      if a.connection
      then (w, a, ok tt)
      else connected a (h.connect_system w).0 (h.connect_system w).1

  -- `.body().deserialize().context(…)?` and the test of the reply
  abbrev read_reply : (Bool × Bool → AuthResult) → Result String Reply → Result String AuthResult
  read_reply judge (err e) = err e
  read_reply judge (ok reply) = elim (h.deserialize reply) [
    | err _ ↦ err "Failed to parse CheckAuthorization response"
    | ok answer ↦ ok (judge answer)
  ]

  unfoldable pub query_polkit : ℕ → String → Act AuthResult
  unfolding get_connection verdict
  query_polkit uid action a w = and_then (get_connection a w) λ _ a' w'. (
    (h.call_polkit uid action 0 w').0,
    a',
    read_reply verdict
        (context_of "Failed to call CheckAuthorization" (h.call_polkit uid action 0 w').1),
  )

  unfoldable pub query_polkit_interactive : ℕ → String → Act AuthResult
  unfolding get_connection verdict_interactive
  query_polkit_interactive uid action a w = and_then (get_connection a w) λ _ a' w'. (
    (h.call_polkit uid action 1 w').0,
    a',
    read_reply verdict_interactive (
        context_of "Failed to call CheckAuthorization (interactive)"
          (h.call_polkit uid action 1 w').1),
  )

  -- The end of `check_authorization`: every answer of polkit is cached.
  abbrev pub cache_answer : ℕ → String → AuthResult → Act AuthResult
  cache_answer uid action result a w = (w, store a (uid, action) result (h.now w), ok result)

  unfoldable pub ask : ℕ → String → Act AuthResult
  unfolding query_polkit store
  ask uid action a w = and_then (query_polkit uid action a w) (cache_answer uid action)

  abbrev from_cache : Option AuthResult → ℕ → String → Act AuthResult
  from_cache (some result) uid action a w = (w, a, ok result)
  from_cache none uid action a w = ask uid action a w

  unfoldable pub check_authorization : ℕ → String → Act AuthResult
  unfolding ask cached
  check_authorization uid action a w =
      if a.enabled
      then from_cache (cached a (uid, action) (h.now w)) uid action a w
      else (w, a, ok authorized)

  -- The end of `request_authorization`: only a grant is cached.
  abbrev pub cache_grant : ℕ → String → AuthResult → Act AuthResult
  cache_grant uid action authorized a w =
      (w, store a (uid, action) authorized (h.now w), ok authorized)
  cache_grant uid action not_authorized a w = (w, a, ok not_authorized)
  cache_grant uid action challenge a w = (w, a, ok challenge)

  unfoldable pub request_authorization : ℕ → String → Act AuthResult
  unfolding query_polkit_interactive store
  request_authorization uid action a w =
      if a.enabled
      then and_then (query_polkit_interactive uid action a w) (cache_grant uid action)
      else (w, a, ok authorized)
