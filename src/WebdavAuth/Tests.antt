-- ===== src/WebdavAuth/Tests.antt =====
-- Concrete runs of the Basic authenticator: a user who guesses, and one who knows the key.
use Prim.Native.Nat.{min}
use immich_bridge.Prelude.{
  String, ◌≡◌, refl, false, none, some, List, [], ◌∷◌, arith, str_eq, if◌then◌else◌,
}
use immich_bridge.Json.{pos, null, str}
use immich_bridge.Dict.{lookup}
use immich_bridge.Cache.{InMemoryCache, count_value, get_int, get_json, raw_count}
use immich_bridge.Cache.Counter.{CountsTo}
use immich_bridge.ImmichAuth.{ImmichIdentity, Validation, accepted, refused}
use immich_bridge.WebdavAuth.{
  Authenticator, Environ, Ticks, granted, denied, basic_auth_user, failure_key, cache_key,
  with_identity, remote_address, after_rate_check, after_lookup, after_validation, is_rate_limited,
  get_cached_identity, set_cached_identity, count_or_zero, below_limit, cached_identity,
}
use immich_bridge.WebdavAuth.Lockout.{attempts, AllRejected, attempts-CountsTo, brute_force_bound}
use immich_bridge.WebdavAuth.Success.{IsAuthenticated, granted_sound}

-- Three failures a minute; texts stand for their own digest.
abbrev authenticator : Authenticator
authenticator = record {
  sha256 = λ text. text;
  casefold = λ text. text;
  cache_ttl_seconds = 60;
  auth_failure_limit = 3;
  auth_failure_window_seconds = 60;
}

abbrev request : Environ
request = record {
  remote_addr = some "10.0.0.1";
  username = none;
  user_id = null;
  email = null;
  api_key_name = null;
  api_key = none;
}

abbrev ticks : Ticks
ticks = record { checked = 10; looked_up = 10; written = 10 }

abbrev bob : ImmichIdentity
bob = record {
  user_id = str "u1";
  email = str "b@x";
  name = str "Bob";
  api_key_name = null;
  is_admin = false;
}

abbrev validate : String → Validation
validate password = if str_eq password "right" then accepted bob else refused

abbrev one_failure : InMemoryCache
one_failure =
    ("auth-fail:10.0.0.1:bob", record { value = count_value (pos 1); expires_at = 60 }) ∷ []

abbrev guesses : List (Ticks × String)
guesses = (ticks, "wrong") ∷ (ticks, "worse") ∷ []

abbrev full : InMemoryCache
full = attempts authenticator "bob" request 60 (omega arith) validate guesses one_failure

-- Both guesses come before the deadline, are refused, and no identity is cached for them.
all_rejected : AllRejected authenticator "bob" request 60 (omega arith) validate one_failure guesses
unfolding cache_key lookup
all_rejected = (omega arith, omega arith, refl, refl, (omega arith, omega arith, refl, refl, tt))

one_counted : CountsTo one_failure (failure_key authenticator "bob" request) 1 60
unfolding failure_key remote_address lookup
one_counted = refl

attempts-CountsTo_example : CountsTo full (failure_key authenticator "bob" request) (min 3 3) 60
attempts-CountsTo_example =
    attempts-CountsTo authenticator "bob" request 60 (omega arith) validate guesses 1 one_failure
      one_counted (omega arith) all_rejected

-- The right key no longer helps.
brute_force_bound_example :
    basic_auth_user authenticator validate ticks "bob" "right" request full
    ≡ (denied, request, full)
brute_force_bound_example =
    brute_force_bound authenticator "bob" request 60 (omega arith) validate validate guesses ticks
      "right" 1 one_failure one_counted (omega arith) all_rejected (omega arith) (omega arith)

abbrev after_bob : Environ
after_bob = with_identity authenticator request "bob" "right" bob

bob_is_granted :
    basic_auth_user authenticator validate ticks "bob" "right" request one_failure
    ≡ (granted "bob", after_bob, set_cached_identity authenticator 10 "right" bob one_failure)
unfolding basic_auth_user after_rate_check after_lookup after_validation is_rate_limited
    get_cached_identity failure_key remote_address cache_key get_int get_json raw_count
    count_or_zero below_limit cached_identity lookup
bob_is_granted = refl

abbrev name : String
name = "bob"

granted_sound_example :
    (name ≡ "bob")
    × IsAuthenticated authenticator validate ticks "bob" "right" request one_failure after_bob
granted_sound_example =
    granted_sound authenticator validate ticks "bob" "right" name request after_bob one_failure
      (set_cached_identity authenticator 10 "right" bob one_failure) bob_is_granted
