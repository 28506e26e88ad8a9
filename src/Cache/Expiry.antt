-- ===== src/Cache/Expiry.antt =====
-- What a reader of the cache sees: src/immich_bridge/cache.py, `get_json` after each method.
use immich_bridge.Prelude.{
  ℕ, ◌+◌, String, ◌≡◌, Option, none, some, arith, str_eq, eq_iff, ltb, if◌then◌else◌, ◌≤◌,
}
use immich_bridge.Json.{Fields}
use immich_bridge.Dict.{lookup}
use immich_bridge.Dict.Laws.{lookup-insert, lookup-delete, lookup-keep_keys}
use immich_bridge.Cache.{CacheEntry, InMemoryCache, expired, get_json, set_json, delete_prefix}
use text.Mathlib.Text.{starts_with}

-- What is stored under a key and has not expired.
abbrev pub live : ℕ → Option CacheEntry → Option Fields
live now none = none
live now (some entry) = if expired now entry then none else some entry.value

pub get_json-live :
    (now : ℕ) (key : String) (items : InMemoryCache)
    → (get_json now key items).0 ≡ live now (lookup key items)
unfolding get_json
get_json-live now key items = ground arith

pub get_json_absent :
    (now : ℕ) (key : String) (items : InMemoryCache)
    → lookup key items ≡ none
    → get_json now key items ≡ (none, items)
unfolding get_json
get_json_absent now key items h = ground arith

-- After a value is stored, its key reads as that value up to the end of its time to live and as
-- nothing later, and every other key reads as it would have.
pub read_after_set :
    (now later : ℕ) (key other : String) (value : Fields) (ttl : ℕ) (items : InMemoryCache)
    → (get_json later other (set_json now key value ttl items)).0 ≡ (
        if str_eq key other
        then (if ltb (now + ttl) later then none else some value)
        else (get_json later other items).0)
unfolding set_json
read_after_set now later key other value ttl items =
    rw (get_json-live, get_json-live) (rw lookup-insert (ground arith))

-- A read does not change what a read at the same time or later gives: an entry that it drops would
-- have read as nothing from then on.
pub read_after_get :
    (now later : ℕ) (key other : String) (items : InMemoryCache)
    → now ≤ later
    → (get_json later other (get_json now key items).1).0 ≡ (get_json later other items).0
unfolding get_json
read_after_get now later key other items h =
    ground (arith, lookup-delete key other items, eq_iff key other, eq_iff other key)

-- After a prefix is deleted, the keys that start with it read as nothing, and every other key reads
-- as it would have.
pub read_after_delete_prefix :
    (later : ℕ) (prefix other : String) (items : InMemoryCache)
    → (get_json later other (delete_prefix prefix items)).0
      ≡ (if starts_with other prefix then none else (get_json later other items).0)
unfolding delete_prefix
read_after_delete_prefix later prefix other items =
    rw (get_json-live, get_json-live) (rw lookup-keep_keys (ground arith))
