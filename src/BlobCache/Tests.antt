-- ===== src/BlobCache/Tests.antt =====
-- Concrete runs of the cache of byte ranges.
use immich_bridge.Prelude.{
  ℕ, ◌≤◌, ◌<◌, ◌≡◌, refl, true, false, some, List, [], ◌∷◌, map, take, drop, suc, arith,
}
use immich_bridge.Json.{pos}
use immich_bridge.Dict.{lookup, insert, delete, keep_keys}
use immich_bridge.BlobCache.{
  BlobCache, Entry, get, set, prune, total_size, sorted, victims, cacheable, range_length, fits,
  has_length, range_key, metadata_for, entries, entry_of, live_entry,
}
use immich_bridge.BlobDisk.{
  Disk, Range, CachedByteRange, fails_at, Metadata, replace_meta_fails, none_at_all, replace_meta,
  replace_data, write_meta_tmp, write_data_tmp,
}
use immich_bridge.BlobCache.Eviction.{disk_entries, prune_bound}
use immich_bridge.BlobCache.Order.{AllBefore, evicts_oldest}
use immich_bridge.BlobCache.Reads.{IsHit, get_sound}
use immich_bridge.BlobCache.Writes.{IsRolledBack, published, get-set, set_fault}

abbrev cache : BlobCache
cache = record {
  max_bytes = 10;
  max_range_bytes = 8;
  ttl_seconds = 60;
  hash = λ text. text;
  key = λ namespace user_scope asset_id start end. asset_id;
}

abbrev range : Range
range = record { namespace = "n"; user_scope = "u"; asset_id = "a"; start = pos 0; end = pos 2 }

abbrev no_files : Disk
no_files = record { stuck = λ kind k. false; bins = []; metas = []; bin_tmps = []; meta_tmps = [] }

abbrev bytes : List ℕ
bytes = 1 ∷ 2 ∷ 3 ∷ []

abbrev hit : CachedByteRange
hit = record { bytes = bytes; start = pos 0; end = pos 2 }

get-set_example :
    (get cache 20 21 range (set cache 10 11 12 range bytes no_files none_at_all)).0 ≡ some hit
unfolding cacheable range_length fits has_length published metadata_for replace_meta replace_data
    write_meta_tmp write_data_tmp entries entry_of live_entry total_size lookup insert delete
    keep_keys
get-set_example =
    get-set cache 10 11 12 range bytes no_files 20 21 tt refl refl (omega arith) (omega arith)
      (omega arith)

get_sound_example :
    (cacheable cache (pos 0) (pos 2) ≡ true)
    × IsHit cache 20 range (set cache 10 11 12 range bytes no_files none_at_all) hit
get_sound_example =
    get_sound cache 20 21 range (set cache 10 11 12 range bytes no_files none_at_all) hit
      get-set_example

set_fault_example :
    IsRolledBack
      (range_key cache range)
      bytes
      11
      no_files
      (set cache 10 11 12 range bytes no_files (fails_at replace_meta_fails))
unfolding cacheable range_length fits has_length
set_fault_example = set_fault cache 10 11 12 range bytes no_files replace_meta_fails refl refl

abbrev six_bytes : Metadata
six_bytes = record {
  namespace = "n";
  user_scope_hash = "u";
  asset_id = "a";
  start = pos 0;
  end = pos 5;
  size = 6;
  created_at = 1;
  expires_at = 60;
}

-- Two live ranges that take more than the limit.
abbrev crowded : Disk
crowded = record {
  stuck = λ kind k. false;
  bins =
      ("old", record { bytes = 1 ∷ 2 ∷ 3 ∷ 4 ∷ 5 ∷ 6 ∷ []; mtime = 1 })
      ∷ ("new", record { bytes = 1 ∷ 2 ∷ 3 ∷ 4 ∷ 5 ∷ 6 ∷ []; mtime = 2 })
      ∷ [];
  metas = ("old", some six_bytes) ∷ ("new", some six_bytes) ∷ [];
  bin_tmps = [];
  meta_tmps = [];
}

prune_bound_example : total_size (disk_entries 12 (prune cache 12 crowded)) ≤ 10
prune_bound_example = prune_bound cache 12 crowded (λ kind k. refl)

abbrev old_entry : Entry
old_entry = record { last_used = 1; size = 6; key = "old" }

abbrev new_entry : Entry
new_entry = record { last_used = 2; size = 6; key = "new" }

evicts_oldest_example :
    (n : ℕ) × (victims 10
        (total_size (new_entry ∷ old_entry ∷ []))
        (sorted (new_entry ∷ old_entry ∷ []))
      ≡ map (λ e. e.key) (take (suc n) (sorted (new_entry ∷ old_entry ∷ []))))
    × AllBefore
        (take (suc n) (sorted (new_entry ∷ old_entry ∷ [])))
        (drop (suc n) (sorted (new_entry ∷ old_entry ∷ [])))
    × (10 < total_size (drop n (sorted (new_entry ∷ old_entry ∷ []))))
unfolding total_size
evicts_oldest_example = evicts_oldest 10 (new_entry ∷ old_entry ∷ []) (omega arith)
