-- ===== src/Cache.antt =====
-- src/immich_bridge/cache.py, `InMemoryCache`: the methods as functions on the dictionary of
-- entries. Each method holds the lock for its whole body, so a method is one step. The clock is an
-- argument, in ticks; every method reads it at most once.
pub mod Expiry
pub mod Counter
mod Tests
use immich_bridge.Prelude.{
  zero, suc, ℕ, ◌+◌, String, Bool, not, Option, none, some, List, [], ltb, if◌then◌else◌,
}
use immich_bridge.Json.{ℤ, pos, negsuc, Value, Fields, int, end, field, get, as_int}
use immich_bridge.Dict.{Dict, lookup, insert, keep_keys, delete}
use text.Mathlib.Text.{starts_with}

pub record CacheEntry : Type 0 where
  pub value : Fields
  pub expires_at : ℕ

abbrev pub InMemoryCache : Type 0
InMemoryCache = Dict CacheEntry

abbrev pub empty : InMemoryCache
empty = []

-- `time.time() > entry.expires_at`
abbrev pub expired : ℕ → CacheEntry → Bool
expired now entry = ltb entry.expires_at now

unfoldable pub get_json : ℕ → String → InMemoryCache → Option Fields × InMemoryCache
get_json now key items = elim (lookup key items) [
  | none ↦ (none, items)
  | some entry ↦ if expired now entry then (none, delete key items) else (some entry.value, items)
]

unfoldable pub set_json : ℕ → String → Fields → ℕ → InMemoryCache → InMemoryCache
set_json now key value ttl items =
    insert key (record { value = value; expires_at = now + ttl }) items

unfoldable pub delete_prefix : String → InMemoryCache → InMemoryCache
delete_prefix prefix items = keep_keys (λ key. not (starts_with key prefix)) items

-- `raw_count = cached.get("count") if cached else None`, kept if it is an integer
unfoldable pub raw_count : Option Fields → Option ℤ
raw_count none = none
raw_count (some value) = as_int (get value "count")

unfoldable pub get_int : ℕ → String → InMemoryCache → Option ℤ × InMemoryCache
unfolding raw_count
get_int now key items = let (cached, items') = get_json now key items in (raw_count cached, items')

-- `int(raw_count) + 1 if isinstance(raw_count, int) else 1`
pub next_count : Option ℤ → ℤ
next_count none = pos 1
next_count (some (pos n)) = pos (n + 1)
next_count (some (negsuc n)) = elim n [ zero ↦ pos 0 | suc m ↦ negsuc m ]

abbrev pub count_value : ℤ → Fields
count_value n = field "count" (int n) end

-- The new value and its expiry.
pub counted : ℕ → ℕ → Option CacheEntry → ℤ × ℕ
unfolding raw_count next_count
counted now ttl none = (pos 1, now + ttl)
counted now ttl (some entry) =
    if expired now entry
    then (pos 1, now + ttl)
    else (next_count (raw_count (some entry.value)), entry.expires_at)

pub incr_with_ttl : ℕ → String → ℕ → InMemoryCache → ℤ × InMemoryCache
unfolding counted
incr_with_ttl now key ttl items =
    let (value, expires_at) = counted now ttl (lookup key items) in
    (value, insert key (record { value = count_value value; expires_at = expires_at }) items)

pub clear : InMemoryCache → InMemoryCache
clear items = []
