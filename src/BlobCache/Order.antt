-- ===== src/BlobCache/Order.antt =====
-- src/immich_bridge/blob_cache.py, `_prune_locked`: the order of eviction.
use immich_bridge.Prelude.{
  ℕ, zero, suc, ◌+◌, ◌-◌, ◌≤◌, ◌<◌, ◌≡◌, refl, true, false, List, [], ◌∷◌, arith, map, take, drop,
  leb, if◌then◌else◌, Bool-cases, inl, inr,
}
use immich_bridge.BlobCache.Eviction.{total-sorted-all}
use immich_bridge.BlobCache.{Entry, total_size, comes_first, insert_sorted, sorted, victims}

-- `n` is at most the last use of every entry.
abbrev pub AllSince : ℕ → List Entry → Type 0
AllSince n [] = Unit
AllSince n (e ∷ es) = (n ≤ e.last_used) × AllSince n es

abbrev IsSorted : List Entry → Type 0
IsSorted [] = Unit
IsSorted (e ∷ es) = AllSince e.last_used es × IsSorted es

-- Every entry of the first list was last used no later than every one of the second.
abbrev pub AllBefore : List Entry → List Entry → Type 0
AllBefore [] ys = Unit
AllBefore (x ∷ xs) ys = AllSince x.last_used ys × AllBefore xs ys

AllSince-mono : (m n : ℕ) (es : List Entry) → m ≤ n → AllSince n es → AllSince m es
AllSince-mono m n [] le h = tt
AllSince-mono m n (e ∷ es) le h = (omega arith, AllSince-mono m n es le h.1)

AllSince-insert :
    (n : ℕ) (e : Entry) (es : List Entry)
    → n ≤ e.last_used
    → AllSince n es
    → AllSince n (insert_sorted e es)
unfolding insert_sorted
AllSince-insert n e [] le h = (le, tt)
AllSince-insert n e (x ∷ xs) le h = ground (arith, AllSince-insert n e xs le h.1)

comes_first-le : (a b : Entry) → comes_first a b ≡ true → a.last_used ≤ b.last_used
unfolding comes_first
comes_first-le a b h = ground arith

not_first-le : (a b : Entry) → comes_first a b ≡ false → b.last_used ≤ a.last_used
unfolding comes_first
not_first-le a b h = ground arith

insert-IsSorted : (e : Entry) (es : List Entry) → IsSorted es → IsSorted (insert_sorted e es)
unfolding insert_sorted
insert-IsSorted e [] h = (tt, tt)
insert-IsSorted e (x ∷ xs) h = elim (Bool-cases (comes_first e x)) [
  | inl first ↦
      let le = comes_first-le e x first in
      rw first ((le, AllSince-mono e.last_used x.last_used xs le h.0), h)
  | inr later ↦
      rw later
        (AllSince-insert x.last_used e xs (not_first-le e x later) h.0, insert-IsSorted e xs h.1)
]

sorted-IsSorted : (es : List Entry) → IsSorted (sorted es)
unfolding sorted
sorted-IsSorted [] = tt
sorted-IsSorted (e ∷ es) = insert-IsSorted e (sorted es) (sorted-IsSorted es)

AllSince-drop : (n k : ℕ) (es : List Entry) → AllSince n es → AllSince n (drop k es)
AllSince-drop n zero es h = h
AllSince-drop n (suc k) [] h = tt
AllSince-drop n (suc k) (e ∷ es) h = AllSince-drop n k es h.1

AllBefore-take-drop : (k : ℕ) (es : List Entry) → IsSorted es → AllBefore (take k es) (drop k es)
AllBefore-take-drop zero es h = tt
AllBefore-take-drop (suc k) [] h = tt
AllBefore-take-drop (suc k) (e ∷ es) h =
    (AllSince-drop e.last_used k es h.0, AllBefore-take-drop k es h.1)

-- How many entries of a list over the limit are evicted.
pub victim_count : ℕ → List Entry → ℕ
victim_count max_bytes [] = 0
victim_count max_bytes (e ∷ es) =
    let more = victim_count max_bytes es in suc (if leb (total_size es) max_bytes then 0 else more)

victims-take :
    (max_bytes : ℕ) (es : List Entry)
    → victims max_bytes (total_size es) es ≡ map (λ e. e.key) (take (victim_count max_bytes es) es)
unfolding victims victim_count total_size
victims-take max_bytes [] = refl
victims-take max_bytes (e ∷ es) =
    let left : e.size + total_size es - e.size ≡ total_size es = omega arith in
    rw left (elim (Bool-cases (leb (total_size es) max_bytes)) [
      | inl fits ↦ rw fits
      | inr over ↦ rw (over, victims-take max_bytes es)
    ])

-- One entry fewer would not do.
victim_count_least :
    (max_bytes : ℕ) (es : List Entry)
    → max_bytes < total_size es
    → (k : ℕ) × (victim_count max_bytes es ≡ suc k) × (max_bytes < total_size (drop k es))
unfolding victim_count
victim_count_least max_bytes [] h = unfold total_size in absurd (omega arith)
victim_count_least max_bytes (e ∷ es) h = elim (Bool-cases (leb (total_size es) max_bytes)) [
  | inl fits ↦ (0, rw fits, h)
  | inr over ↦
      let (k, count, enough) = victim_count_least max_bytes es (ground arith) in
      (suc k, rw (over, count), enough)
]

-- When the live entries exceed the limit, the second loop of the pruning evicts a front part of the
-- sorted entries, so none that is evicted comes after one that stays; and one entry less would not
-- have been enough.
pub evicts_oldest :
    (max_bytes : ℕ) (live : List Entry)
    → max_bytes < total_size live
    → (n : ℕ) × (victims max_bytes (total_size live) (sorted live)
        ≡ map (λ e. e.key) (take (suc n) (sorted live)))
      × AllBefore (take (suc n) (sorted live)) (drop (suc n) (sorted live))
      × (max_bytes < total_size (drop n (sorted live)))
evicts_oldest max_bytes live h =
    let over : max_bytes < total_size (sorted live) = omega (arith, total-sorted-all live) in
    let (n, count, enough) = victim_count_least max_bytes (sorted live) over in
    (
      n,
      rw count at (rw (total-sorted-all live) at (victims-take max_bytes (sorted live))),
      AllBefore-take-drop (suc n) (sorted live) (sorted-IsSorted live),
      enough,
    )
