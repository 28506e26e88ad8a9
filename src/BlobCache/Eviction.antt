-- ===== src/BlobCache/Eviction.antt =====
-- src/immich_bridge/blob_cache.py, `_prune_locked`: the size limit.
use immich_bridge.Prelude.{
  ℕ, ◌+◌, ◌-◌, ◌≤◌, ◌<◌, String, ◌≡◌, refl, sym, subst, Bool, true, false, ◌||◌, not, Option, none,
  some, List, [], ◌∷◌, arith, elem, keep, leb, leb→le, if◌then◌else◌, Bool-cases, inl, inr,
  str_eq_refl,
}
use immich_bridge.Dict.{Dict, keep_keys}
use immich_bridge.Dict.Laws.{lookup-keep_keys}
use immich_bridge.BlobCache.{
  BlobCache, Entry, entry_of, entries, stale_keys, total_size, insert_sorted, sorted, victims,
  prune, cons_some,
}
use immich_bridge.BlobDisk.{DataFile, MetaFile, FileKind, data_file, meta_file, Disk, delete_keys}

-- Is the entry not among the victims?
abbrev pub spared : List String → Entry → Bool
spared ks e = not (elem e.key ks)

total-insert_sorted :
    (ks : List String) (e : Entry) (es : List Entry)
    → total_size (keep (spared ks) (insert_sorted e es)) ≡ total_size (keep (spared ks) (e ∷ es))
unfolding insert_sorted total_size
total-insert_sorted ks e [] = refl
total-insert_sorted ks e (x ∷ xs) = ground (arith, total-insert_sorted ks e xs)

total-insert-all :
    (e : Entry) (es : List Entry) → total_size (insert_sorted e es) ≡ e.size + total_size es
unfolding insert_sorted total_size
total-insert-all e [] = refl
total-insert-all e (x ∷ xs) = ground (arith, total-insert-all e xs)

total-sorted :
    (ks : List String) (es : List Entry)
    → total_size (keep (spared ks) (sorted es)) ≡ total_size (keep (spared ks) es)
unfolding sorted total_size
total-sorted ks [] = refl
total-sorted ks (e ∷ es) = ground (arith, total-sorted ks es, total-insert_sorted ks e (sorted es))

keep-le : (p : Entry → Bool) (es : List Entry) → total_size (keep p es) ≤ total_size es
unfolding total_size
keep-le p [] = omega arith
keep-le p (e ∷ es) = ground (arith, keep-le p es)

pub total-sorted-all : (es : List Entry) → total_size (sorted es) ≡ total_size es
unfolding sorted total_size
total-sorted-all [] = refl
total-sorted-all (e ∷ es) = ground (arith, total-sorted-all es, total-insert-all e (sorted es))

-- Fewer victims spare more.
keep_mono :
    (k : String) (ks : List String) (es : List Entry)
    → total_size (keep (spared (k ∷ ks)) es) ≤ total_size (keep (spared ks) es)
unfolding total_size
keep_mono k ks [] = omega arith
keep_mono k ks (e ∷ es) = ground (arith, keep_mono k ks es)

victims-cons :
    (max_bytes : ℕ) (e : Entry) (es : List Entry)
    → victims max_bytes (total_size (e ∷ es)) (e ∷ es)
      ≡ e.key ∷ (if leb (total_size es) max_bytes then [] else victims max_bytes (total_size es) es)
unfolding victims total_size
victims-cons max_bytes e es =
    let left : e.size + total_size es - e.size ≡ total_size es = omega arith in rw left

-- The first victim is gone, so what is left lies among the others.
bound_rest :
    (max_bytes : ℕ) (e : Entry) (es : List Entry) (ks rest : List String)
    → ks ≡ e.key ∷ rest
    → total_size (keep (spared (e.key ∷ rest)) es) ≤ max_bytes
    → total_size (keep (spared ks) (e ∷ es)) ≤ max_bytes
bound_rest max_bytes e es ks rest h fits =
    subst (λ v. total_size (keep (spared v) (e ∷ es)) ≤ max_bytes) (sym h)
      (rw (str_eq_refl e.key) fits)

victims_bound :
    (max_bytes : ℕ) (es : List Entry)
    → max_bytes < total_size es
    → total_size (keep (spared (victims max_bytes (total_size es) es)) es) ≤ max_bytes
victims_bound max_bytes [] h = unfold total_size in absurd (omega arith)
victims_bound max_bytes (e ∷ es) h = elim (Bool-cases (leb (total_size es) max_bytes)) [
  | inl fits ↦
      bound_rest max_bytes e es _ [] (rw (victims-cons, fits))
        (omega (arith, keep-le (spared (e.key ∷ [])) es, leb→le _ _ fits))
  | inr over ↦
      bound_rest max_bytes e es _ (victims max_bytes (total_size es) es) (rw (victims-cons, over)) (
        omega (
          arith,
          keep_mono e.key (victims max_bytes (total_size es) es) es,
          victims_bound max_bytes es (ground arith),
        ))
]

keep-cons_some :
    (now : ℕ) (k : String) (ks : List String) (file : Option DataFile) (m : MetaFile)
    (rest : List Entry)
    → keep (spared ks) (cons_some (entry_of now k file m) rest) ≡ (
        if elem k ks
        then keep (spared ks) rest
        else cons_some (entry_of now k file m) (keep (spared ks) rest))
unfolding entry_of
keep-cons_some now k ks none none rest = ground arith
keep-cons_some now k ks (some file) none rest = ground arith
keep-cons_some now k ks none (some m) rest = ground arith
keep-cons_some now k ks (some file) (some m) rest = ground arith

-- With the files of some keys deleted, the directory has the entries of the others.
entries-delete_keys :
    (now : ℕ) (ks : List String) (bins : Dict DataFile) (metas : Dict MetaFile)
    → entries now (keep_keys (λ j. not (elem j ks)) bins) (keep_keys (λ j. not (elem j ks)) metas)
      ≡ keep (spared ks) (entries now bins metas)
unfolding entries keep_keys
entries-delete_keys now ks bins [] = refl
entries-delete_keys now ks bins ((k, m) ∷ metas) = elim (Bool-cases (elem k ks)) [
  | inl gone ↦ rw (gone, keep-cons_some, gone) (entries-delete_keys now ks bins metas)
  | inr stays ↦
      rw (stays, keep-cons_some, stays, entries)
        (rw (lookup-keep_keys, stays, entries-delete_keys now ks bins metas))
]

keep-keep-le :
    (p q : Entry → Bool) (es : List Entry)
    → total_size (keep p (keep q es)) ≤ total_size (keep p es)
unfolding total_size
keep-keep-le p q [] = omega arith
keep-keep-le p q (e ∷ es) = ground (arith, keep-keep-le p q es)

-- The entries of a directory.
abbrev pub disk_entries : ℕ → Disk → List Entry
disk_entries now disk = entries now disk.bins disk.metas

-- Every file can be unlinked.
abbrev pub IsFree : Disk → Type 0
IsFree disk = (kind : FileKind) (k : String) → disk.stuck kind k ≡ false

delete_keys-IsFree : (ks : List String) (disk : Disk) → IsFree disk → IsFree (delete_keys ks disk)
unfolding delete_keys
delete_keys-IsFree ks disk free = free

keep_keys-same :
    {V : Type 0} (p q : String → Bool) (d : Dict V)
    → ((k : String) → p k ≡ q k)
    → keep_keys p d ≡ keep_keys q d
unfolding keep_keys
keep_keys-same p q [] same = refl
keep_keys-same p q ((k, v) ∷ d) same = rw (same k, keep_keys-same p q d same) refl

or_false : (a b : Bool) → b ≡ false → (a || b) ≡ a
or_false true b h = refl
or_false false b h = h

disk_entries-delete :
    (now : ℕ) (ks : List String) (disk : Disk)
    → IsFree disk
    → disk_entries now (delete_keys ks disk) ≡ keep (spared ks) (disk_entries now disk)
unfolding delete_keys
disk_entries-delete now ks disk free =
    rw
      (
        keep_keys-same (λ k. not (elem k ks) || disk.stuck data_file k) (λ k. not (elem k ks))
            disk.bins (λ k. or_false (not (elem k ks)) _ (free data_file k)),
        keep_keys-same (λ k. not (elem k ks) || disk.stuck meta_file k) (λ k. not (elem k ks))
            disk.metas (λ k. or_false (not (elem k ks)) _ (free meta_file k)),
      )
      (entries-delete_keys now ks disk.bins disk.metas)

-- After a pruning of a directory whose files can all be unlinked, whatever else was on the disk, the
-- ranges that are described and live take no more than the limit together.
pub prune_bound :
    (c : BlobCache) (now : ℕ) (disk : Disk)
    → IsFree disk
    → total_size (disk_entries now (prune c now disk)) ≤ c.max_bytes
unfolding prune
prune_bound c now disk free = elim (Bool-cases (leb (total_size live) c.max_bytes)) [
  | inl fits ↦
      rw (fits, disk_entries-delete now stale disk free)
        (omega (arith, keep-le (spared stale) live, leb→le _ _ fits))
  | inr over ↦
      rw
        (
          over,
          disk_entries-delete now evicted (delete_keys stale disk)
              (delete_keys-IsFree stale disk free),
          disk_entries-delete now stale disk free,
        )
        (omega (
          arith,
          keep-keep-le (spared evicted) (spared stale) live,
          total-sorted evicted live,
          bound (ground (arith, total-sorted-all live)),
        ))
]
  where
    live : List Entry
    live = disk_entries now disk

    stale : List String
    stale = stale_keys now disk.bins disk.metas

    evicted : List String
    evicted = victims c.max_bytes (total_size live) (sorted live)

    bound :
        c.max_bytes < total_size (sorted live)
        → total_size (keep (spared evicted) (sorted live)) ≤ c.max_bytes
    bound h = rw (total-sorted-all live) at (victims_bound c.max_bytes (sorted live) h)
