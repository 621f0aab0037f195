-- ===== src/Daemon/Auth/Stale.antt =====
-- An answer in the cache outlives a later grant for another action.
use ebpf_assist.Prelude.{
  str_eq_iff, ℕ, true, String, some, Result, ok, err, ◌≡◌, ◌≢◌, refl, ◌∙◌, arith,
}
use ebpf_assist.Daemon.Host.{Host}
use ebpf_assist.Daemon.Auth.{
  AuthManager, AuthResult, authorized, not_authorized, challenge, cached, store,
  query_polkit_interactive, check_authorization, request_authorization, and_then, cache_grant,
}
use ebpf_assist.Daemon.Auth.Cache.{
  SameCache, query_polkit_interactive-SameCache, cached-store, check_hit, request_on,
}

module _ (h : Host) where
  open h use {World}

  cached-SameCache :
      {a b : AuthManager} (key : ℕ × String) (now : ℕ)
      → SameCache a b
      → cached b key now ≡ cached a key now
  unfolding cached
  cached-SameCache key now same = rw (same.cache)

  cached-store_other :
      (a : AuthManager) (uid : ℕ) (action other : String) (r : AuthResult) (t now : ℕ)
      → action ≢ other
      → cached (store a (uid, other) r t) (uid, action) now ≡ cached a (uid, action) now
  cached-store_other a uid action other r t now ne =
      ground (arith, cached-store a (uid, other) (uid, action) r t now, str_eq_iff other action)

  cached-cache_grant :
      (uid : ℕ) (action other : String) (q : World × AuthManager × Result String AuthResult)
      (now : ℕ)
      → action ≢ other
      → cached (and_then h q (cache_grant h uid other)).1 (uid, action) now
        ≡ cached q.1 (uid, action) now
  cached-cache_grant uid action other (w, a, ok authorized) now ne =
      cached-store_other a uid action other authorized (h.now w) now ne
  cached-cache_grant uid action other (w, a, ok not_authorized) now ne = refl
  cached-cache_grant uid action other (w, a, ok challenge) now ne = refl
  cached-cache_grant uid action other (w, a, err e) now ne = refl

  request-enabled :
      (uid : ℕ) (other : String) (q : World × AuthManager × Result String AuthResult)
      → (and_then h q (cache_grant h uid other)).1.enabled ≡ q.1.enabled
  unfolding store
  request-enabled uid other (w, a, ok authorized) = refl
  request-enabled uid other (w, a, ok not_authorized) = refl
  request-enabled uid other (w, a, ok challenge) = refl
  request-enabled uid other (w, a, err e) = refl

  -- Whatever polkit answers to a request for another action, a check of an enabled manager repeats
  -- the answer that its cache held before, until that answer expires, without asking polkit.
  pub check-request :
      (uid : ℕ) (action other : String) (a : AuthManager) (w v : World) (r : AuthResult)
      → a.enabled ≡ true
      → action ≢ other
      → cached a (uid, action) (h.now v) ≡ some r
      → check_authorization h uid action (request_authorization h uid other a w).1 v
        ≡ (v, (request_authorization h uid other a w).1, ok r)
  check-request uid action other a w v r on ne hit =
      let q = query_polkit_interactive h uid other a w in
      let same = query_polkit_interactive-SameCache h uid other a w in
      check_hit h uid action (request_authorization h uid other a w).1 v r
        (rw (request_on h uid other a w on) (request-enabled uid other q ∙ same.enabled ∙ on))
        (rw (request_on h uid other a w on) (
          cached-cache_grant uid action other q (h.now v) ne
          ∙ cached-SameCache (uid, action) (h.now v) same
          ∙ hit))
