-- ===== src/WebdavAuth.antt =====
-- src/immich_bridge/webdav_auth.py, `ImmichBasicAuthenticator`: Basic authentication with a rate
-- limit on failures and a cache of identities, over the in-memory cache. SHA-256 and Unicode case
-- folding are parameters, and so is the check of a key against Immich.
pub mod Lockout
pub mod Success
mod Tests
use immich_bridge.Prelude.{
  ℕ, ◌+◌, String, Bool, true, false, not, Option, none, some, ◌==◌, ltb, str_eq, if◌then◌else◌,
  concat,
}
use immich_bridge.Json.{
  ℤ, pos, negsuc, Value, Fields, str, bool, null, end, field, get, truthy, as_text,
}
use immich_bridge.Cache.{InMemoryCache, get_json, get_int, set_json, incr_with_ttl}
use immich_bridge.ImmichAuth.{ImmichIdentity, Validation, accepted, refused, crashed}

pub record Authenticator : Type 0 where
  pub sha256 : String → String
  pub casefold : String → String
  pub cache_ttl_seconds : ℕ
  pub auth_failure_limit : ℕ
  pub auth_failure_window_seconds : ℕ

-- The keys of the WSGI environment that the class reads and writes.
pub record Environ : Type 0 where
  pub remote_addr : Option String
  pub username : Option String
  pub user_id : Value
  pub email : Value
  pub api_key_name : Value
  pub api_key : Option String

-- The clock at the rate check, at the identity lookup, and at the write that ends the call.
pub record Ticks : Type 0 where
  pub checked : ℕ
  pub looked_up : ℕ
  pub written : ℕ

-- `environ.get("REMOTE_ADDR") or "unknown"`
pub remote_address : Environ → String
remote_address environ = elim environ.remote_addr [
  | none ↦ "unknown"
  | some addr ↦ if str_eq addr "" then "unknown" else addr
]

-- `get_int(key) or 0`
pub count_or_zero : Option ℤ → ℤ
count_or_zero none = pos 0
count_or_zero (some n) = n

-- `count < limit`
pub below_limit : ℤ → ℕ → Bool
below_limit (pos n) limit = ltb n limit
below_limit (negsuc n) limit = true

-- `asdict(identity)`
pub identity_dict : ImmichIdentity → Fields
identity_dict i = field "user_id" i.user_id (
    field "email" i.email (
      field "name" i.name
        (field "api_key_name" i.api_key_name (field "is_admin" (bool i.is_admin) end))))

pub text_or_null : Value → Value
text_or_null (str s) = str s
text_or_null _ = null

-- The identity that a cached dictionary holds, if its user id is a text and not empty.
pub identity_of_dict : Fields → Option ImmichIdentity
unfolding text_or_null
identity_of_dict cached = elim (as_text (get cached "user_id")) [
  | none ↦ none
  | some user_id ↦
      if str_eq user_id ""
      then none
      else some (record {
        user_id = str user_id;
        email = text_or_null (get cached "email");
        name = text_or_null (get cached "name");
        api_key_name = text_or_null (get cached "api_key_name");
        is_admin = truthy (get cached "is_admin");
      })
]

pub cached_identity : Option Fields → Option ImmichIdentity
cached_identity none = none
cached_identity (some cached) = identity_of_dict cached

-- `denied` is `return False`.
pub data Verdict : Type 0 where
  granted : String → Verdict
  denied failed : Verdict

-- What a call leaves: its result, the environment and the cache.
abbrev pub Outcome : Type 0
Outcome = Verdict × Environ × InMemoryCache

module _ (a : Authenticator) where
  pub cache_key : String → String
  cache_key api_key = concat "auth:" (a.sha256 api_key)

  pub failure_key : String → Environ → String
  unfolding remote_address
  failure_key username environ =
      concat "auth-fail:"
        (a.sha256 (concat (remote_address environ) (concat ":" (a.casefold username))))

  pub is_rate_limited : ℕ → String → InMemoryCache → Bool × InMemoryCache
  unfolding count_or_zero below_limit
  is_rate_limited now key cache =
      let (count, cache') = get_int now key cache in
      if a.auth_failure_limit == 0
      then (false, cache)
      else (not (below_limit (count_or_zero count) a.auth_failure_limit), cache')

  pub record_auth_failure : ℕ → String → InMemoryCache → InMemoryCache
  record_auth_failure now key cache =
      if a.auth_failure_limit == 0
      then cache
      else (incr_with_ttl now key a.auth_failure_window_seconds cache).1

  pub get_cached_identity : ℕ → String → InMemoryCache → Option ImmichIdentity × InMemoryCache
  unfolding cached_identity
  get_cached_identity now api_key cache =
      let (cached, cache') = get_json now (cache_key api_key) cache in
      (cached_identity cached, cache')

  pub set_cached_identity : ℕ → String → ImmichIdentity → InMemoryCache → InMemoryCache
  set_cached_identity now api_key i cache =
      set_json now (cache_key api_key) (identity_dict i) a.cache_ttl_seconds cache

  pub with_identity : Environ → String → String → ImmichIdentity → Environ
  with_identity environ username password i = record environ {
    username = some username;
    user_id = i.user_id;
    email = i.email;
    api_key_name = i.api_key_name;
    api_key = some password;
  }

  -- `failure_key` is the key that the call computed first.
  pub after_validation :
      Ticks → String → String → String → Environ → InMemoryCache → Validation → Outcome
  after_validation t key username password environ cache (accepted i) = (
    granted username,
    with_identity environ username password i,
    set_cached_identity t.written password i cache,
  )
  after_validation t key username password environ cache refused =
      (denied, environ, record_auth_failure t.written key cache)
  after_validation t key username password environ cache crashed = (failed, environ, cache)

  pub after_lookup :
      (String → Validation)
      → Ticks
      → String
      → String
      → String
      → Environ
      → Option ImmichIdentity × InMemoryCache
      → Outcome
  unfolding after_validation with_identity
  after_lookup validate t key username password environ (some i, cache) =
      (granted username, with_identity environ username password i, cache)
  after_lookup validate t key username password environ (none, cache) =
      after_validation t key username password environ cache (validate password)

  pub after_rate_check :
      (String → Validation)
      → Ticks
      → String
      → String
      → String
      → Environ
      → Bool × InMemoryCache
      → Outcome
  unfolding after_lookup
  after_rate_check validate t key username password environ (true, cache) = (denied, environ, cache)
  after_rate_check validate t key username password environ (false, cache) =
      if str_eq password ""
      then (denied, environ, record_auth_failure t.written key cache)
      else after_lookup validate t key username password environ
          (get_cached_identity t.looked_up password cache)

  pub basic_auth_user :
      (String → Validation) → Ticks → String → String → Environ → InMemoryCache → Outcome
  basic_auth_user validate t username password environ cache =
      after_rate_check validate t (failure_key username environ) username password environ
        (is_rate_limited t.checked (failure_key username environ) cache)
