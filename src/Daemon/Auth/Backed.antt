-- ===== src/Daemon/Auth/Backed.antt =====
-- No grant is made up: whatever has been called on the manager, a check says `authorized` only if
-- polkit said so for this user and action, within the cache duration.
use ebpf_assist.Prelude.{
  ℕ, ◌+◌, ◌<◌, ◌≤◌, true, not, [], String, Option, none, some, Result, ok, err, nat_eq, pair_key,
  ◌≡◌, refl, sym, ap, ◌∙◌, arith, Bool-cases, Option-cases, inl, inr,
}
use ebpf_assist.Table
use ebpf_assist.Table.Laws.{get-insert, get-retain}
use ebpf_assist.Daemon.Host.{Host}
use ebpf_assist.Daemon.Auth.{
  AuthManager, AuthResult, CacheEntry, authorized, not_authorized, challenge, cached, still_valid,
  store, clear_cache, query_polkit, query_polkit_interactive, ask, check_authorization,
  request_authorization, and_then, cache_answer, cache_grant,
}
use ebpf_assist.Daemon.Auth.Cache.{
  SameCache, query_polkit-SameCache, query_polkit_interactive-SameCache, check_hit, check_miss,
  check_off, request_on, request_off,
}

-- `Granted` is any record of polkit's grants: it holds of a user, an action and the time at which
-- polkit's answer to a query for them, with or without a prompt, is a grant.
module _ (h : Host) (Granted : ℕ × String → ℕ → Type 0)
    (records : (uid : ℕ) (action : String) (a : AuthManager) (w : h.World)
      → (query_polkit h uid action a w).2 ≡ ok authorized
      → Granted (uid, action) (h.now (query_polkit h uid action a w).0))
    (records_interactive : (uid : ℕ) (action : String) (a : AuthManager) (w : h.World)
      → (query_polkit_interactive h uid action a w).2 ≡ ok authorized
      → Granted (uid, action) (h.now (query_polkit_interactive h uid action a w).0)) where
  open h use {World}

  -- Every grant in the cache was given, one cache duration before it expires.
  pub record IsBacked (a : AuthManager) : Type 0 where
    pub backs :
        (key : ℕ × String) (e : CacheEntry)
        → Table.get a.cache key ≡ some e
        → e.result ≡ authorized
        → (t : ℕ) × Granted key t × (e.expires ≡ t + a.cache_duration)

  SameCache-IsBacked : {a b : AuthManager} → SameCache a b → IsBacked a → IsBacked b
  SameCache-IsBacked {a} {b} same k = record {
    backs = λ key e found granted.
        let (t, g, x) = k.backs key e (rw same.cache at found) granted in
        (t, g, rw same.cache_duration x);
  }

  store-IsBacked :
      (a : AuthManager) (key : ℕ × String) (r : AuthResult) (t : ℕ)
      → (r ≡ authorized → Granted key t)
      → IsBacked a
      → IsBacked (store a key r t)
  unfolding store
  store-IsBacked a key r t given k = record {
    backs = λ j e found granted. elim (Bool-cases (pair_key.beq key j)) [
      | inl same ↦
          let entry = rw (get-insert, same) at found in
          let same_key = (pair_key.beq_iff key j).0 same in
          let same_result : r ≡ e.result = ground arith in
          let same_time : e.expires ≡ t + a.cache_duration = ground arith in
          (t, rw (← same_key) (given (same_result ∙ granted)), same_time)
      | inr other ↦ k.backs j e (rw (get-insert, other) at found) granted
    ];
  }

  cache_answer-IsBacked :
      (uid : ℕ) (action : String) (q : World × AuthManager × Result String AuthResult)
      → (q.2 ≡ ok authorized → Granted (uid, action) (h.now q.0))
      → IsBacked q.1
      → IsBacked (and_then h q (cache_answer h uid action)).1
  cache_answer-IsBacked uid action (w, a, ok r) given k =
      store-IsBacked a (uid, action) r (h.now w) (λ e. given (ap ok e)) k
  cache_answer-IsBacked uid action (w, a, err e) given k = k

  cache_grant-IsBacked :
      (uid : ℕ) (action : String) (q : World × AuthManager × Result String AuthResult)
      → (q.2 ≡ ok authorized → Granted (uid, action) (h.now q.0))
      → IsBacked q.1
      → IsBacked (and_then h q (cache_grant h uid action)).1
  cache_grant-IsBacked uid action (w, a, ok authorized) given k =
      store-IsBacked a (uid, action) authorized (h.now w) (λ e. given refl) k
  cache_grant-IsBacked uid action (w, a, ok not_authorized) given k = k
  cache_grant-IsBacked uid action (w, a, ok challenge) given k = k
  cache_grant-IsBacked uid action (w, a, err e) given k = k

  ask-IsBacked :
      (uid : ℕ) (action : String) (a : AuthManager) (w : World)
      → IsBacked a
      → IsBacked (ask h uid action a w).1
  unfolding ask
  ask-IsBacked uid action a w k =
      cache_answer-IsBacked uid action (query_polkit h uid action a w) (records uid action a w)
        (SameCache-IsBacked (query_polkit-SameCache h uid action a w) k)

  pub check-IsBacked :
      (uid : ℕ) (action : String) (a : AuthManager) (w : World)
      → IsBacked a
      → IsBacked (check_authorization h uid action a w).1
  check-IsBacked uid action a w k = elim (Bool-cases a.enabled) [
    | inl on ↦ elim (Option-cases (cached a (uid, action) (h.now w))) [
      | inl miss ↦ rw (check_miss h uid action a w on miss) (ask-IsBacked uid action a w k)
      | inr (r, hit) ↦ rw (check_hit h uid action a w r on hit) k
    ]
    | inr off ↦ rw (check_off h uid action a w off) k
  ]

  pub request-IsBacked :
      (uid : ℕ) (action : String) (a : AuthManager) (w : World)
      → IsBacked a
      → IsBacked (request_authorization h uid action a w).1
  request-IsBacked uid action a w k = elim (Bool-cases a.enabled) [
    | inl on ↦ rw (request_on h uid action a w on) (
        cache_grant-IsBacked uid action (query_polkit_interactive h uid action a w)
          (records_interactive uid action a w)
          (SameCache-IsBacked (query_polkit_interactive-SameCache h uid action a w) k))
    | inr off ↦ rw (request_off h uid action a w off) k
  ]

  clear-IsBacked : (a : AuthManager) (who : Option ℕ) → IsBacked a → IsBacked (clear_cache a who)
  unfolding clear_cache
  clear-IsBacked a none k = record { backs = λ key e found. unfold Table.get in cc }
  clear-IsBacked a (some uid) k = record {
    backs = λ key e found granted.
        let kept =
          get-retain ⦃e = pair_key⦄ (λ (j : ℕ × String). not (nat_eq j.0 uid)) a.cache key in
        let old : Table.get a.cache key ≡ some e = ground (arith, kept) in
        k.backs key e old granted;
  }

  -- The managers that calls lead to, each call in some world.
  pub data Reach (a : AuthManager) : AuthManager → Type 0 where
    start : Reach a a
    checks :
        {b : AuthManager} (uid : ℕ) (action : String) (w : World)
        → Reach a b
        → Reach a (check_authorization h uid action b w).1
    requests :
        {b : AuthManager} (uid : ℕ) (action : String) (w : World)
        → Reach a b
        → Reach a (request_authorization h uid action b w).1
    clears : {b : AuthManager} (who : Option ℕ) → Reach a b → Reach a (clear_cache b who)

  Reach-IsBacked : {a b : AuthManager} → IsBacked a → Reach a b → IsBacked b
  Reach-IsBacked k start = k
  Reach-IsBacked k (checks {b} uid action w r) = check-IsBacked uid action b w (Reach-IsBacked k r)
  Reach-IsBacked k (requests {b} uid action w r) =
      request-IsBacked uid action b w (Reach-IsBacked k r)
  Reach-IsBacked k (clears {b} who r) = clear-IsBacked b who (Reach-IsBacked k r)

  cached_backed :
      (a : AuthManager) (key : ℕ × String) (now : ℕ)
      → IsBacked a
      → cached a key now ≡ some authorized
      → (t : ℕ) × Granted key t × (now < t + a.cache_duration)
  unfolding cached
  cached_backed a key now k hit = elim (Option-cases (Table.get a.cache key)) [
    | inl missing ↦ let miss = rw (missing, still_valid) at hit in cc
    | inr (e, found) ↦
        let valid = rw (found, still_valid) at hit in
        let (t, g, x) = k.backs key e found (ground arith) in (t, g, ground arith)
  ]

  empty-IsBacked : (a : AuthManager) → a.cache ≡ [] → IsBacked a
  empty-IsBacked a fresh = record {
    backs = λ key e found. let nothing = rw fresh at found in unfold Table.get in cc;
  }

  cache_answer_back :
      (uid : ℕ) (action : String) (q : World × AuthManager × Result String AuthResult)
      → (and_then h q (cache_answer h uid action)).2 ≡ ok authorized
      → (q.2 ≡ ok authorized) × ((and_then h q (cache_answer h uid action)).0 ≡ q.0)
  cache_answer_back uid action (w, a, ok r) e = (e, refl)
  cache_answer_back uid action (w, a, err m) e = cc

  -- From a manager with an empty cache, whatever calls have been made: if a check of an enabled
  -- manager says `authorized` then polkit granted this user and action at some time, and the check
  -- is made before the cache duration has passed since, or has just asked.
  pub check_backed :
      (a b : AuthManager) (uid : ℕ) (action : String) (w : World)
      → a.cache ≡ []
      → Reach a b
      → b.enabled ≡ true
      → (check_authorization h uid action b w).2 ≡ ok authorized
      → (t : ℕ) × Granted (uid, action) t
        × (h.now (check_authorization h uid action b w).0 ≤ t + b.cache_duration)
  unfolding ask
  check_backed a b uid action w fresh r on e =
      let k = Reach-IsBacked (empty-IsBacked a fresh) r in
      elim (Option-cases (cached b (uid, action) (h.now w))) [
        | inl miss ↦
            let asks = check_miss h uid action b w on miss in
            let (granted, same_world) =
              cache_answer_back uid action (query_polkit h uid action b w)
                (ap (λ x. x.2) (sym asks) ∙ e) in
            (
              h.now (query_polkit h uid action b w).0,
              records uid action b w granted,
              omega (arith, ap (λ x. h.now x.0) asks, ap h.now same_world),
            )
        | inr (result, hit) ↦
            let at_once = check_hit h uid action b w result on hit in
            let same : result ≡ authorized = ground arith in
            let (t, g, x) = cached_backed b (uid, action) (h.now w) k (hit ∙ ap some same) in
            (t, g, omega (arith, ap (λ x. h.now x.0) at_once))
      ]
