-- ===== src/BlobCache/Writes.antt =====
-- src/immich_bridge/blob_cache.py: reads after `set`, and `set` under an `OSError`.
use immich_bridge.Prelude.{
  ℕ, zero, suc, take, if◌then◌else◌, ◌+◌, ◌≤◌, ◌<◌, String, ◌≡◌, refl, ap, Bool, true, false, ◌⊎◌,
  Option, none, some, List, [], ◌∷◌, arith, length, elem, leb, Bool-cases, inl, inr, str_eq, eq_iff,
  str_eq_refl,
}
use immich_bridge.Json.{ℤ, pos, negsuc}
use immich_bridge.Dict.{Dict, lookup, insert, delete}
use immich_bridge.Dict.Laws.{lookup-insert, lookup-delete, delete-insert, lookup-keep_keys}
use immich_bridge.BlobCache.{
  BlobCache, cacheable, range_key, get, metadata_for, store, set, has_length, range_length, prune,
  stored, swept, reached, stale_keys, total_size, entry_of, live_entry, Entry,
}
use immich_bridge.BlobDisk.{
  Range, CachedByteRange, DataFile, Metadata, MetaFile, Disk, none_at_all, Step, fails_at,
  prune_fails, data_tmp, meta_tmp, delete_tmps, replace_meta_fails, delete_keys, replace_meta,
  replace_data, write_meta_tmp, write_data_tmp,
}
use immich_bridge.BlobCache.Eviction.{disk_entries}
use immich_bridge.BlobCache.Reads.{IsHit, get_hit}

-- A directory lists a name once.
abbrev pub IsDirectory : Dict MetaFile → Type 0
IsDirectory [] = Unit
IsDirectory ((k, m) ∷ metas) = (lookup k metas ≡ none) × IsDirectory metas

insert-IsDirectory :
    (k : String) (m : MetaFile) (metas : Dict MetaFile)
    → IsDirectory metas
    → IsDirectory (insert k m metas)
unfolding insert lookup
insert-IsDirectory k m [] h = (refl, tt)
insert-IsDirectory k m ((j, n) ∷ metas) h = elim (Bool-cases (str_eq j k)) [
  | inl same ↦ rw same h
  | inr other ↦ rw other (
    ground (arith, lookup-insert k j m metas, eq_iff j k, eq_iff k j, h.0),
    insert-IsDirectory k m metas h.1,
  )
]

has_length_pos :
    (bytes : List ℕ) (start end : ℤ)
    → has_length bytes (range_length start end) ≡ true
    → 0 < length bytes
unfolding has_length range_length
has_length_pos bytes (pos s) (pos e) h = ground arith
has_length_pos bytes (pos s) (negsuc e) h = cc
has_length_pos bytes (negsuc s) e h = cc

le→leb : (a b : ℕ) → a ≤ b → leb a b ≡ true
le→leb a b h = ground arith

module _ (now : ℕ) (bins : Dict DataFile) (k : String) where
  absent_not_stale :
      (metas : Dict MetaFile) → lookup k metas ≡ none → elem k (stale_keys now bins metas) ≡ false
  unfolding stale_keys lookup
  absent_not_stale [] h = refl
  absent_not_stale ((j, m) ∷ metas) h = ground (arith, absent_not_stale metas)

  live_not_stale :
      (metas : Dict MetaFile) (m : MetaFile) (e : Entry)
      → IsDirectory metas
      → lookup k metas ≡ some m
      → entry_of now k (lookup k bins) m ≡ some e
      → elem k (stale_keys now bins metas) ≡ false
  unfolding stale_keys lookup
  live_not_stale [] m e d h live = cc
  live_not_stale ((j, n) ∷ metas) m e d h live = elim (Bool-cases (str_eq j k)) [
    | inl same ↦
        let p : j ≡ k = (eq_iff j k).0 same in
        let q : n ≡ m = ground arith in
        let live' : entry_of now j (lookup j bins) n ≡ some e = rw (p, q) live in
        rw (live', stale_keys) (absent_not_stale metas (rw (← p) d.0))
    | inr other ↦ ground (arith, live_not_stale metas m e d.1)
  ]

-- The directory once both files are in place, before the pruning.
unfoldable pub published : BlobCache → ℕ → ℕ → Range → List ℕ → Disk → Disk
unfolding stored metadata_for
published c now written r bytes disk =
    stored written (range_key c r) (metadata_for c now r (length bytes)) bytes disk

module _ (c : BlobCache) (now written pruned : ℕ) (r : Range) (bytes : List ℕ) (disk : Disk) where
  lookup-published_meta :
      lookup (range_key c r) (published c now written r bytes disk).metas
      ≡ some (some (metadata_for c now r (length bytes)))
  unfolding published stored replace_meta replace_data write_meta_tmp write_data_tmp
  lookup-published_meta = rw (lookup-insert, str_eq_refl)

  lookup-published_data :
      lookup (range_key c r) (published c now written r bytes disk).bins
      ≡ some (record { bytes = bytes; mtime = written })
  unfolding published stored replace_meta replace_data write_meta_tmp write_data_tmp
  lookup-published_data = rw (lookup-insert, str_eq_refl)

  entry_of_published :
      pruned < now + c.ttl_seconds
      → 0 < length bytes
      → entry_of pruned
          (range_key c r)
          (some (record { bytes = bytes; mtime = written }))
          (some (metadata_for c now r (length bytes)))
        ≡ some (record { last_used = written; size = length bytes; key = range_key c r })
  unfolding entry_of live_entry metadata_for
  entry_of_published fresh nonempty = ground arith

  -- The sweep of the pruning keeps the range that was just stored.
  kept_by_sweep :
      IsDirectory disk.metas
      → pruned < now + c.ttl_seconds
      → 0 < length bytes
      → elem (range_key c r) (
          stale_keys pruned
            (published c now written r bytes disk).bins
            (published c now written r bytes disk).metas)
        ≡ false
  kept_by_sweep d fresh nonempty =
      live_not_stale pruned (published c now written r bytes disk).bins (range_key c r)
        (published c now written r bytes disk).metas (some (metadata_for c now r (length bytes)))
        (record { last_used = written; size = length bytes; key = range_key c r })
        (unfold published stored replace_meta replace_data write_meta_tmp write_data_tmp in
          insert-IsDirectory (range_key c r) _ disk.metas d)
        lookup-published_meta (rw lookup-published_data (entry_of_published fresh nonempty))

  set-published :
      cacheable c r.start r.end ≡ true
      → has_length bytes (range_length r.start r.end) ≡ true
      → set c now written pruned r bytes disk none_at_all
        ≡ prune c pruned (published c now written r bytes disk)
  unfolding set published
  set-published ok whole = rw (ok, whole)

  prune-published :
      total_size (disk_entries pruned (published c now written r bytes disk)) ≤ c.max_bytes
      → prune c pruned (published c now written r bytes disk)
        ≡ delete_keys
            (stale_keys pruned
              (published c now written r bytes disk).bins
              (published c now written r bytes disk).metas)
            (published c now written r bytes disk)
  unfolding prune
  prune-published room = rw (le→leb _ _ room)

  -- In a directory that has one metadata file per key: a range that is cacheable, has the right number
  -- of bytes and fits the limit together with the live ranges is served back, byte for byte, until
  -- its time to live is over.
  pub get-set :
      (later renewed : ℕ)
      → IsDirectory disk.metas
      → cacheable c r.start r.end ≡ true
      → has_length bytes (range_length r.start r.end) ≡ true
      → total_size (disk_entries pruned (published c now written r bytes disk)) ≤ c.max_bytes
      → pruned ≤ later
      → later < now + c.ttl_seconds
      → (get c later renewed r (set c now written pruned r bytes disk none_at_all)).0
        ≡ some (record { bytes = bytes; start = r.start; end = r.end })
  get-set later renewed d ok whole room order fresh =
      let nonempty = has_length_pos bytes r.start r.end whole in
      let kept = kept_by_sweep d (omega arith) nonempty in
      let v : IsHit c later r
          (delete_keys
            (stale_keys pruned (published c now written r bytes disk).bins
              (published c now written r bytes disk).metas)
            (published c now written r bytes disk))
          (record { bytes = bytes; start = r.start; end = r.end }) =
        record {
          metadata = metadata_for c now r (length bytes);
          file = record { bytes = bytes; mtime = written };
          described = unfold delete_keys in rw (lookup-keep_keys, kept) lookup-published_meta;
          stored = unfold delete_keys in rw (lookup-keep_keys, kept) lookup-published_data;
          fresh = unfold metadata_for in fresh;
          whole = unfold metadata_for in refl;
          served = refl;
        } in
      rw (set-published ok whole, prune-published room)
        (ap (λ (x : Option CachedByteRange × Disk). x.0) (get_hit c later renewed r _ _ ok v))

-- No temporary file of the key is left, unless it cannot be unlinked.
pub record IsClean (k : String) (disk : Disk) : Type 0 where
  pub no_bin_tmp : (disk.stuck data_tmp k ≡ true) ⊎ (lookup k disk.bin_tmps ≡ none)
  pub no_meta_tmp : (disk.stuck meta_tmp k ≡ true) ⊎ (lookup k disk.meta_tmps ≡ none)

-- At most the data file of the key is new: its metadata and the files of every other key are what
-- they were.
pub record IsRolledBack (k : String) (bytes : List ℕ) (written : ℕ) (before after : Disk)
    : Type 0 where
  pub clean : IsClean k after
  pub elsewhere : delete k after.bins ≡ delete k before.bins
  pub metadata_kept : after.metas ≡ before.metas
  pub data_old_or_new :
      (after.bins ≡ before.bins)
      ⊎ (lookup k after.bins ≡ some (record { bytes = bytes; mtime = written }))

-- The range is stored, and beyond that only keys that the pruning sweeps can be gone.
pub record IsSwept (k : String) (pruned : ℕ) (whole after : Disk) : Type 0 where
  pub clean : IsClean k after
  pub others_kept :
      (j : String)
      → (elem j (stale_keys pruned whole.bins whole.metas) ≡ true)
        ⊎ ((lookup j after.bins ≡ lookup j whole.bins)
            × (lookup j after.metas ≡ lookup j whole.metas))

elem-take : (n : ℕ) (j : String) (ks : List String) → elem j ks ≡ false → elem j (take n ks) ≡ false
elem-take zero j ks h = refl
elem-take (suc n) j [] h = refl
elem-take (suc n) j (k ∷ ks) h = ground (arith, elem-take n j ks)

module _ {V : Type 0} (k : String) (d : Dict V) where
  cleaned_tmp : (b : Bool) → (b ≡ true) ⊎ (lookup k (if b then d else delete k d) ≡ none)
  cleaned_tmp true = inl refl
  cleaned_tmp false = inr (rw (lookup-delete, str_eq_refl))

clean_lem : (k : String) (disk : Disk) → IsClean k (delete_tmps k disk)
unfolding delete_tmps
clean_lem k disk = record {
  no_bin_tmp = cleaned_tmp k disk.bin_tmps (disk.stuck data_tmp k);
  no_meta_tmp = cleaned_tmp k disk.meta_tmps (disk.stuck meta_tmp k);
}

swept_lem :
    (k : String) (pruned n : ℕ) (whole : Disk)
    → IsSwept k pruned whole (delete_tmps k (swept pruned n whole))
unfolding delete_tmps swept delete_keys
swept_lem k pruned n whole = record {
  clean = clean_lem k (swept pruned n whole);
  others_kept = λ j. elim (Bool-cases (elem j (stale_keys pruned whole.bins whole.metas))) [
    | inl stale ↦ inl stale
    | inr live ↦
        let kept = elem-take n j (stale_keys pruned whole.bins whole.metas) live in
        inr (rw (lookup-keep_keys, kept) refl, rw (lookup-keep_keys, kept) refl)
  ];
}

-- What is left after a step failed.
abbrev pub Aftermath : Step → ℕ → ℕ → String → Metadata → List ℕ → Disk → Disk → Type 0
Aftermath (prune_fails n) written pruned k m bytes before after =
    IsSwept k pruned (stored written k m bytes before) after
Aftermath _ written pruned k m bytes before after = IsRolledBack k bytes written before after

module _ (c : BlobCache) (written pruned : ℕ) (k : String) (m : Metadata) (bytes : List ℕ)
    (disk : Disk) where
  pub store_fault :
      (step : Step)
      → Aftermath step written pruned k m bytes disk
          (store c written pruned k m bytes disk (fails_at step))
  unfolding store reached delete_tmps write_data_tmp write_meta_tmp replace_data
  store_fault (prune_fails n) = swept_lem k pruned n (stored written k m bytes disk)
  store_fault replace_meta_fails = record {
    clean = clean_lem k _;
    elsewhere = delete-insert k _ disk.bins;
    metadata_kept = refl;
    data_old_or_new = inr (rw (lookup-insert, str_eq_refl));
  }
  store_fault _ = record {
    clean = clean_lem k _;
    elsewhere = refl;
    metadata_kept = refl;
    data_old_or_new = inl refl;
  }

-- When an `OSError` is caught at any step of storing a cacheable range of the right length, no
-- temporary file of its key is left, unless it cannot be unlinked. If the step is before the
-- pruning, the metadata and the data of every other key are as they were, and the key's own data
-- file is as it was or whole; if it is in the sweep of the pruning, the range is stored, and only keys
-- that are stale at the pruning can have lost a file.
pub set_fault :
    (c : BlobCache) (now written pruned : ℕ) (r : Range) (bytes : List ℕ) (disk : Disk)
    (step : Step)
    → cacheable c r.start r.end ≡ true
    → has_length bytes (range_length r.start r.end) ≡ true
    → Aftermath step written pruned
        (range_key c r)
        (metadata_for c now r (length bytes))
        bytes
        disk
        (set c now written pruned r bytes disk (fails_at step))
unfolding set
set_fault c now written pruned r bytes disk step ok whole =
    rw (ok, whole) (store_fault c written pruned (range_key c r) _ bytes disk step)
