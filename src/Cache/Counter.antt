-- ===== src/Cache/Counter.antt =====
-- The failure counters: src/immich_bridge/cache.py, `incr_with_ttl` and `get_int`.
use immich_bridge.Prelude.{
  ℕ, suc, ◌+◌, ◌≤◌, String, ◌≡◌, List, [], ◌∷◌, length, false, none, some, arith, str_eq, ltb,
  str_eq_refl, if◌then◌else◌,
}
use native.Mathlib.Nat.{add-zero}
use immich_bridge.Json.{pos}
use immich_bridge.Dict.{lookup}
use immich_bridge.Dict.Laws.{lookup-insert}
use immich_bridge.Cache.{InMemoryCache, get_json, get_int, incr_with_ttl, count_value}

-- The counter `key` stands at `n`, until `deadline`.
abbrev pub CountsTo : InMemoryCache → String → ℕ → ℕ → Type 0
CountsTo items key n deadline =
    lookup key items ≡ some (record { value = count_value (pos n); expires_at = deadline })

pub incr_first :
    (now : ℕ) (key : String) (ttl : ℕ) (items : InMemoryCache)
    → (get_json now key items).0 ≡ none
    → ((incr_with_ttl now key ttl items).0 ≡ pos 1)
      × CountsTo (incr_with_ttl now key ttl items).1 key 1 (now + ttl)
unfolding incr_with_ttl get_json
incr_first now key ttl items h = ground (
  arith,
  lookup-insert key key (record { value = count_value (pos 1); expires_at = now + ttl }) items,
  str_eq_refl key,
)

pub incr_next :
    (now : ℕ) (key : String) (ttl n deadline : ℕ) (items : InMemoryCache)
    → CountsTo items key n deadline
    → now ≤ deadline
    → ((incr_with_ttl now key ttl items).0 ≡ pos (n + 1))
      × CountsTo (incr_with_ttl now key ttl items).1 key (n + 1) deadline
unfolding incr_with_ttl
incr_next now key ttl n deadline items h fresh = rw (h, lookup-insert, str_eq_refl) (ground arith)

pub get_int_counter :
    (now : ℕ) (key : String) (n deadline : ℕ) (items : InMemoryCache)
    → CountsTo items key n deadline
    → (get_int now key items).0 ≡ (if ltb deadline now then none else some (pos n))
unfolding get_int get_json
get_int_counter now key n deadline items h = ground arith

-- A live counter stays when it is read.
pub get_int_keeps :
    (now : ℕ) (key : String) (n deadline : ℕ) (items : InMemoryCache)
    → CountsTo items key n deadline
    → now ≤ deadline
    → (get_int now key items).1 ≡ items
unfolding get_int get_json
get_int_keeps now key n deadline items h fresh = ground arith

pub lookup-incr_ne :
    (now : ℕ) (key other : String) (ttl : ℕ) (items : InMemoryCache)
    → str_eq key other ≡ false
    → lookup other (incr_with_ttl now key ttl items).1 ≡ lookup other items
unfolding incr_with_ttl
lookup-incr_ne now key other ttl items h = rw (lookup-insert, h)

-- Increments at the given times, one after the other.
pub incr_all : String → ℕ → List ℕ → InMemoryCache → InMemoryCache
incr_all key ttl [] items = items
incr_all key ttl (now ∷ times) items = incr_all key ttl times (incr_with_ttl now key ttl items).1

abbrev pub AllBefore : ℕ → List ℕ → Type 0
AllBefore deadline [] = Unit
AllBefore deadline (now ∷ times) = (now ≤ deadline) × AllBefore deadline times

-- Increments that all come before the deadline of a live counter add one each, and never move its
-- deadline.
pub incr_all-CountsTo :
    (key : String) (ttl n deadline : ℕ) (times : List ℕ) (items : InMemoryCache)
    → CountsTo items key n deadline
    → AllBefore deadline times
    → CountsTo (incr_all key ttl times items) key (n + length times) deadline
unfolding incr_all
incr_all-CountsTo key ttl n deadline [] items h before = rw add-zero h
incr_all-CountsTo key ttl n deadline (now ∷ times) items h before =
    let step = incr_next now key ttl n deadline items h before.0 in
    let e : n + suc (length times) ≡ n + 1 + length times = omega arith in
    rw e (
      incr_all-CountsTo key ttl (n + 1) deadline times (incr_with_ttl now key ttl items).1 step.1
        before.1)
