-- ===== src/Daemon/Auth/Cache.antt =====
-- The cache of polkit's answers: when an answer is repeated, and that no grant is made up.
use ebpf_assist.Prelude.{
  false, ℕ, ◌+◌, ◌<◌, true, String, none, some, Result, ok, err, if◌then◌else◌, ltb, nat_eq,
  pair_key, ◌≡◌, sym, ap, ◌∙◌, arith, Bool-cases, inl, inr,
}
use ebpf_assist.Table.Laws.{get-insert, get-retain, beq_refl}
use ebpf_assist.Daemon.Host.{Host}
use ebpf_assist.Daemon.Auth.{
  cache_grant, authorized, request_authorization, AuthManager, AuthResult, CacheEntry, cached,
  still_valid, store, clear_cache, get_connection, query_polkit, query_polkit_interactive, ask,
  check_authorization, and_then, cache_answer,
}

-- The same cache under the same settings: the connection may differ.
pub record SameCache (a b : AuthManager) : Type 0 where
  pub cache : b.cache ≡ a.cache
  pub cache_duration : b.cache_duration ≡ a.cache_duration
  pub enabled : b.enabled ≡ a.enabled

-- After a store, the stored key is cached until it expires, and the others are as before.
pub cached-store :
    (a : AuthManager) (key j : ℕ × String) (r : AuthResult) (t now : ℕ)
    → cached (store a key r t) j now ≡ (
        if pair_key.beq key j
        then (if ltb now (t + a.cache_duration) then some r else none)
        else cached a j now)
unfolding cached store
cached-store a key j r t now = elim (Bool-cases (pair_key.beq key j)) [
  | inl same ↦ rw (get-insert {V = CacheEntry}, still_valid) (rw same)
  | inr other ↦ rw (get-insert {V = CacheEntry}, still_valid) (rw other)
]

pub cached-store_self :
    (a : AuthManager) (key : ℕ × String) (r : AuthResult) (t now : ℕ)
    → cached (store a key r t) key now ≡ (if ltb now (t + a.cache_duration) then some r else none)
cached-store_self a key r t now =
    cached-store a key key r t now
    ∙ ap
        (λ b.
          if b then (if ltb now (t + a.cache_duration) then some r else none) else cached a key now)
        (beq_refl ⦃e = pair_key⦄ key)

-- After the cache of a user is cleared nothing of that user is cached, and no other user's entry
-- has changed.
pub cached-clear_cache :
    (a : AuthManager) (uid : ℕ) (key : ℕ × String) (now : ℕ)
    → cached (clear_cache a (some uid)) key now
      ≡ (if nat_eq key.0 uid then none else cached a key now)
unfolding cached clear_cache
cached-clear_cache a uid key now = rw (get-retain {V = CacheEntry}, still_valid) (ground arith)

module _ (h : Host) where
  open h use {World}

  pub query_polkit-SameCache :
      (uid : ℕ) (action : String) (a : AuthManager) (w : World)
      → SameCache a (query_polkit h uid action a w).1
  unfolding query_polkit get_connection
  query_polkit-SameCache uid action a w = ground arith

  pub query_polkit_interactive-SameCache :
      (uid : ℕ) (action : String) (a : AuthManager) (w : World)
      → SameCache a (query_polkit_interactive h uid action a w).1
  unfolding query_polkit_interactive get_connection
  query_polkit_interactive-SameCache uid action a w = ground arith

  -- A cached answer is returned at once: polkit is not asked and nothing changes.
  pub check_hit :
      (uid : ℕ) (action : String) (a : AuthManager) (w : World) (r : AuthResult)
      → a.enabled ≡ true
      → cached a (uid, action) (h.now w) ≡ some r
      → check_authorization h uid action a w ≡ (w, a, ok r)
  unfolding check_authorization
  check_hit uid action a w r on hit = rw (on, hit)

  pub check_miss :
      (uid : ℕ) (action : String) (a : AuthManager) (w : World)
      → a.enabled ≡ true
      → cached a (uid, action) (h.now w) ≡ none
      → check_authorization h uid action a w ≡ ask h uid action a w
  unfolding check_authorization
  check_miss uid action a w on miss = rw (on, miss)

  pub check_off :
      (uid : ℕ) (action : String) (a : AuthManager) (w : World)
      → a.enabled ≡ false
      → check_authorization h uid action a w ≡ (w, a, ok authorized)
  unfolding check_authorization
  check_off uid action a w off = simp off

  pub request_off :
      (uid : ℕ) (action : String) (a : AuthManager) (w : World)
      → a.enabled ≡ false
      → request_authorization h uid action a w ≡ (w, a, ok authorized)
  unfolding request_authorization
  request_off uid action a w off = simp off

  pub request_on :
      (uid : ℕ) (action : String) (a : AuthManager) (w : World)
      → a.enabled ≡ true
      → request_authorization h uid action a w
        ≡ and_then h (query_polkit_interactive h uid action a w) (cache_grant h uid action)
  unfolding request_authorization
  request_on uid action a w on = simp on

  cache_answer_lem :
      (uid : ℕ) (action : String) (q : World × AuthManager × Result String AuthResult)
      {r : AuthResult}
      → (and_then h q (cache_answer h uid action)).2 ≡ ok r
      → let done = and_then h q (cache_answer h uid action) in
        done.1 ≡ store q.1 (uid, action) r (h.now done.0)
  cache_answer_lem uid action (w, a, ok x) e = ground arith
  cache_answer_lem uid action (w, a, err m) e = cc

  -- What a check that had to ask leaves in the cache.
  ask_stores :
      (uid : ℕ) (action : String) (a : AuthManager) (w : World) {r : AuthResult}
      → (ask h uid action a w).2 ≡ ok r
      → (b : AuthManager) × SameCache a b
        × ((ask h uid action a w).1 ≡ store b (uid, action) r (h.now (ask h uid action a w).0))
  unfolding ask
  ask_stores uid action a w e = (
    (query_polkit h uid action a w).1,
    query_polkit-SameCache uid action a w,
    cache_answer_lem uid action (query_polkit h uid action a w) e,
  )

  -- If a check of an enabled manager finds no answer in the cache and succeeds, then every check of
  -- the same user and action until the cache duration has passed repeats the answer that polkit gave
  -- to it, without asking and without a change.
  pub check_repeats :
      (uid : ℕ) (action : String) (a : AuthManager) (w v : World) (r : AuthResult)
      → a.enabled ≡ true
      → cached a (uid, action) (h.now w) ≡ none
      → (check_authorization h uid action a w).2 ≡ ok r
      → h.now v < h.now (check_authorization h uid action a w).0 + a.cache_duration
      → check_authorization h uid action (check_authorization h uid action a w).1 v
        ≡ (v, (check_authorization h uid action a w).1, ok r)
  check_repeats uid action a w v r on miss answered soon =
      let asks = check_miss uid action a w on miss in
      let (b, same, stored) = ask_stores uid action a w (ap (λ x. x.2) (sym asks) ∙ answered) in
      let state = ap (λ x. x.1) asks ∙ stored in
      check_hit uid action (check_authorization h uid action a w).1 v r
        (rw state (unfold store in same.enabled ∙ on))
        (rw (state, cached-store_self, same.cache_duration)
          (ground (arith, ap (λ x. h.now x.0) asks)))
