-- ===== src/WebdavAuth/Lockout.antt =====
-- src/immich_bridge/webdav_auth.py: the rate limit on failures.
use native.Mathlib.Decide.{dec_lt}
use Prim.Native.Nat.{min}
use immich_bridge.Prelude.{
  ℕ, suc, ◌+◌, ◌≤◌, ◌<◌, String, ◌≡◌, ◌≢◌, ◌∙◌, not, none, List, [], ◌∷◌, arith, length, ltb,
  str_eq_ne,
}
use immich_bridge.Dict.{lookup}
use immich_bridge.Cache.Expiry.{get_json_absent}
use immich_bridge.Cache.{InMemoryCache, incr_with_ttl}
use immich_bridge.Cache.Counter.{
  CountsTo, get_int_counter, incr_next, get_int_keeps, lookup-incr_ne,
}
use immich_bridge.ImmichAuth.{Validation, refused}
use immich_bridge.WebdavAuth.{
  Authenticator, Environ, Ticks, denied, cache_key, failure_key, is_rate_limited,
  record_auth_failure, get_cached_identity, after_validation, after_lookup, after_rate_check,
  basic_auth_user, cached_identity,
}

-- A failure counter and a cached identity never share a key.
keys_apart :
    (a : Authenticator) (username password : String) (environ : Environ)
    → failure_key a username environ ≢ cache_key a password
unfolding failure_key cache_key
keys_apart a username password environ e = cc

is_rate_limited_live :
    (a : Authenticator) (now : ℕ) (key : String) (n deadline : ℕ) (cache : InMemoryCache)
    → 0 < a.auth_failure_limit
    → CountsTo cache key n deadline
    → now ≤ deadline
    → is_rate_limited a now key cache ≡ (not (ltb n a.auth_failure_limit), cache)
unfolding is_rate_limited
is_rate_limited_live a now key n deadline cache positive h fresh =
    ground
      (arith, get_int_counter now key n deadline cache h, get_int_keeps now key n deadline cache h)

module _ (a : Authenticator) (username : String) (environ : Environ) (deadline : ℕ)
    (positive : 0 < a.auth_failure_limit) where
  -- Once the counter stands at the limit, a call is denied before anything is asked of Immich,
  -- whatever the password, and changes nothing.
  pub locked_out :
      (validate : String → Validation) (t : Ticks) (password : String) (n : ℕ)
      (cache : InMemoryCache)
      → CountsTo cache (failure_key a username environ) n deadline
      → a.auth_failure_limit ≤ n
      → t.checked ≤ deadline
      → basic_auth_user a validate t username password environ cache ≡ (denied, environ, cache)
  unfolding basic_auth_user after_rate_check
  locked_out validate t password n cache h full fresh =
      rw
        (is_rate_limited_live a t.checked (failure_key a username environ) n deadline cache positive
          h fresh)
        (ground arith)

  -- A rejected attempt below the limit raises the counter by one.
  rejected_step :
      (validate : String → Validation) (t : Ticks) (password : String) (n : ℕ)
      (cache : InMemoryCache)
      → CountsTo cache (failure_key a username environ) n deadline
      → n < a.auth_failure_limit
      → t.checked ≤ deadline
      → t.written ≤ deadline
      → validate password ≡ refused
      → lookup (cache_key a password) cache ≡ none
      → basic_auth_user a validate t username password environ cache ≡ (
        denied,
        environ,
        (incr_with_ttl t.written
            (failure_key a username environ)
            a.auth_failure_window_seconds
            cache).1,
      )
  unfolding basic_auth_user after_rate_check after_lookup after_validation get_cached_identity
      cached_identity record_auth_failure
  rejected_step validate t password n cache h below fresh fresh' rejects absent =
      rw
        (is_rate_limited_live a t.checked (failure_key a username environ) n deadline cache positive
          h fresh)
        (ground (arith, get_json_absent t.looked_up (cache_key a password) cache absent))

  -- The calls of a client that tries the passwords in turn.
  pub attempts : (String → Validation) → List (Ticks × String) → InMemoryCache → InMemoryCache
  attempts validate [] cache = cache
  attempts validate ((t, password) ∷ rest) cache =
      attempts validate rest (basic_auth_user a validate t username password environ cache).2

  abbrev pub AllRejected : (String → Validation) → InMemoryCache → List (Ticks × String) → Type 0
  AllRejected validate cache [] = Unit
  AllRejected validate cache ((t, password) ∷ rest) =
      (t.checked ≤ deadline)
      × (t.written ≤ deadline)
      × (validate password ≡ refused)
      × (lookup (cache_key a password) cache ≡ none)
      × AllRejected validate cache rest

  AllRejected-incr :
      (validate : String → Validation) (now : ℕ) (cache : InMemoryCache)
      (guesses : List (Ticks × String))
      → AllRejected validate cache guesses
      → AllRejected validate
          (incr_with_ttl now (failure_key a username environ) a.auth_failure_window_seconds cache).1
          guesses
  AllRejected-incr validate now cache [] h = tt
  AllRejected-incr validate now cache ((t, password) ∷ rest) h = (
    h.0,
    h.1,
    h.2,
    lookup-incr_ne now (failure_key a username environ) (cache_key a password)
          a.auth_failure_window_seconds cache
          (str_eq_ne _ _ (keys_apart a username password environ))
        ∙ h.3,
    AllRejected-incr validate now cache rest h.4,
  )

  -- With a positive limit, attempts that Immich refuses, with passwords that no identity is cached for,
  -- all before the deadline of a live counter at or below the
  -- limit count one each, and the counter stops at the limit.
  pub attempts-CountsTo :
      (validate : String → Validation) (guesses : List (Ticks × String)) (n : ℕ)
      (cache : InMemoryCache)
      → CountsTo cache (failure_key a username environ) n deadline
      → n ≤ a.auth_failure_limit
      → AllRejected validate cache guesses
      → CountsTo
          (attempts validate guesses cache)
          (failure_key a username environ)
          (min a.auth_failure_limit (n + length guesses))
          deadline
  unfolding attempts
  attempts-CountsTo validate [] n cache h le all =
      let e : min a.auth_failure_limit (n + 0) ≡ n = omega arith in rw e h
  attempts-CountsTo validate ((t, password) ∷ rest) n cache h le all =
      elim (dec_lt n a.auth_failure_limit) [
        | yes below ↦
            let e : n + suc (length rest) ≡ n + 1 + length rest = omega arith in
            rw (rejected_step validate t password n cache h below all.0 all.1 all.2 all.3, e)
              (attempts-CountsTo validate rest (n + 1) _
                (incr_next t.written (failure_key a username environ) a.auth_failure_window_seconds
                  n deadline cache h all.1).1
                (omega arith) (AllRejected-incr validate t.written cache rest all.4))
        | no full ↦
            let e : min a.auth_failure_limit (n + suc (length rest))
                ≡ min a.auth_failure_limit (n + length rest) =
              omega arith in
            rw (locked_out validate t password n cache h (omega arith) all.0, e)
              (attempts-CountsTo validate rest n cache h le all.4)
      ]

  -- With a positive limit and a live counter at or below it: once as many attempts were rejected
  -- before the deadline as bring the counter to the limit, any call for that user and address is
  -- denied until the deadline, whatever the password and whatever Immich says of it, and changes
  -- nothing.
  pub brute_force_bound :
      (validate other : String → Validation) (guesses : List (Ticks × String)) (t : Ticks)
      (password : String) (n : ℕ) (cache : InMemoryCache)
      → CountsTo cache (failure_key a username environ) n deadline
      → n ≤ a.auth_failure_limit
      → AllRejected validate cache guesses
      → a.auth_failure_limit ≤ n + length guesses
      → t.checked ≤ deadline
      → basic_auth_user a other t username password environ (attempts validate guesses cache)
        ≡ (denied, environ, attempts validate guesses cache)
  brute_force_bound validate other guesses t password n cache h le all many fresh =
      locked_out other t password _ (attempts validate guesses cache)
        (attempts-CountsTo validate guesses n cache h le all) (omega arith) fresh
