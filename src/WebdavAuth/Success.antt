-- ===== src/WebdavAuth/Success.antt =====
-- src/immich_bridge/webdav_auth.py, `basic_auth_user`: the calls that are granted.
use immich_bridge.Prelude.{
  String, ◌≡◌, ◌≢◌, ◌⊎◌, inl, inr, refl, Bool, false, Option, none, some, arith, str_eq, eq_iff,
  Bool-cases,
}
use immich_bridge.Cache.{InMemoryCache}
use immich_bridge.ImmichAuth.{ImmichIdentity, Validation, accepted, refused, crashed}
use immich_bridge.WebdavAuth.{
  Authenticator, Environ, Ticks, granted, failure_key, is_rate_limited, get_cached_identity,
  after_validation, after_lookup, after_rate_check, basic_auth_user, with_identity,
}

module _ (a : Authenticator) (validate : String → Validation) (t : Ticks)
    (username password : String) where
  -- What a granted call has established.
  pub record IsAuthenticated (environ : Environ) (cache : InMemoryCache) (after : Environ)
      : Type 0 where
    pub identity : ImmichIdentity
    pub nonempty : password ≢ ""
    pub not_limited : (is_rate_limited a t.checked (failure_key a username environ) cache).0 ≡ false
    pub known :
        ((get_cached_identity a t.looked_up password
            (is_rate_limited a t.checked (failure_key a username environ) cache).1).0
          ≡ some identity)
        ⊎ (validate password ≡ accepted identity)
    pub recorded : after ≡ with_identity a environ username password identity

  after_validation_sound :
      (key name : String) (environ after : Environ) (cache cache' : InMemoryCache) (v : Validation)
      → after_validation a t key username password environ cache v ≡ (granted name, after, cache')
      → (i : ImmichIdentity) × (v ≡ accepted i)
        × (name ≡ username)
        × (after ≡ with_identity a environ username password i)
  unfolding after_validation
  after_validation_sound key name environ after cache cache' (accepted i) h =
      (i, refl, ground arith, ground arith)
  after_validation_sound key name environ after cache cache' refused h = cc
  after_validation_sound key name environ after cache cache' crashed h = cc

  after_lookup_sound :
      (key name : String) (environ after : Environ) (found : Option ImmichIdentity)
      (cache cache' : InMemoryCache)
      → after_lookup a validate t key username password environ (found, cache)
        ≡ (granted name, after, cache')
      → (i : ImmichIdentity) × ((found ≡ some i) ⊎ (validate password ≡ accepted i))
        × (name ≡ username)
        × (after ≡ with_identity a environ username password i)
  unfolding after_lookup
  after_lookup_sound key name environ after (some i) cache cache' h =
      (i, inl refl, ground arith, ground arith)
  after_lookup_sound key name environ after none cache cache' h =
      let (i, e, n, r) =
        after_validation_sound key name environ after cache cache' (validate password) h in
      (i, inr e, n, r)

  -- A call is granted only to a password that is not empty, when the rate limit was not reached, for an
  -- identity that the cache held for that password or that Immich accepted it for; the name granted is
  -- the user name given, and the environment afterwards is the old one with exactly that identity.
  pub granted_sound :
      (name : String) (environ after : Environ) (cache cache' : InMemoryCache)
      → basic_auth_user a validate t username password environ cache ≡ (granted name, after, cache')
      → (name ≡ username) × IsAuthenticated environ cache after
  unfolding basic_auth_user after_rate_check
  granted_sound name environ after cache cache' h = elim (Bool-cases limited.0) [
    | inl e ↦ absurd (ground arith)
    | inr e ↦ elim (Bool-cases (str_eq password "")) [
      | inl e' ↦ absurd (ground arith)
      | inr e' ↦
          let (i, known, n, r) =
            after_lookup_sound (failure_key a username environ) name environ after looked.0 looked.1
              cache' (ground arith) in
          (
            n,
            record {
              identity = i;
              nonempty = λ p. absurd (ground (arith, eq_iff password ""));
              not_limited = e;
              known = known;
              recorded = r;
            },
          )
    ]
  ]
    where
      limited : Bool × InMemoryCache
      limited = is_rate_limited a t.checked (failure_key a username environ) cache

      looked : Option ImmichIdentity × InMemoryCache
      looked = get_cached_identity a t.looked_up password limited.1
