-- ===== src/BlobCache.antt =====
-- src/immich_bridge/blob_cache.py: the cache of byte ranges on disk. A directory holds `<key>.bin`
-- and `<key>.json` files, and their `.tmp` siblings while a range is stored. A metadata file holds
-- what `set` wrote, or nothing that parses. The clock is an argument, in ticks.
pub mod Eviction
pub mod Order
pub mod Reads
pub mod Writes
mod Tests
use immich_bridge.Prelude.{
  take, ℕ, zero, suc, ◌+◌, ◌-◌, String, Bool, true, false, not, ◌&&◌, ◌||◌, Option, none, some,
  List, [], ◌∷◌, length, elem, ltb, leb, ◌==◌, if◌then◌else◌,
}
use Prim.Native.String.{compare}
use text.Mathlib.Text.{is_le}
use immich_bridge.Json.{ℤ, pos, negsuc}
use immich_bridge.Dict.{Dict, lookup, insert, keep_keys, delete}
use immich_bridge.BlobDisk.{
  CachedByteRange, DataFile, Disk, Fault, MetaFile, Metadata, Range, delete_keys, delete_pair, Step,
  fails_at, prune_fails, delete_tmps, mkdir_fails, none_at_all, read_metadata, replace_data,
  replace_data_fails, replace_meta, replace_meta_fails, touch, write_data_fails, write_data_tmp,
  write_meta_fails, write_meta_tmp,
}

-- The limits are clamped at 0 by the constructor, so they are natural numbers. `hash` is the
-- SHA-256 of a user scope, `key` that of the JSON of the five parts of a range.
pub record BlobCache : Type 0 where
  pub max_bytes : ℕ
  pub max_range_bytes : ℕ
  pub ttl_seconds : ℕ
  pub hash : String → String
  pub key : String → String → String → ℤ → ℤ → String

-- `end - start + 1` of a range that is not negative and not empty, else nothing
pub range_length : ℤ → ℤ → Option ℕ
range_length (pos start) (pos end) = if ltb end start then none else some (end - start + 1)
range_length (pos start) (negsuc end) = none
range_length (negsuc start) end = none

pub fits : BlobCache → Option ℕ → Bool
fits c none = false
fits c (some n) = leb n c.max_range_bytes

unfoldable pub cacheable : BlobCache → ℤ → ℤ → Bool
unfolding range_length fits
cacheable c start end =
    if (c.max_bytes == 0) || (c.max_range_bytes == 0) || (c.ttl_seconds == 0)
    then false
    else fits c (range_length start end)

abbrev pub range_key : BlobCache → Range → String
range_key c r = c.key r.namespace r.user_scope r.asset_id r.start r.end

abbrev pub Hit : Type 0
Hit = Option CachedByteRange × Disk

unfoldable pub with_data : ℕ → Range → String → Metadata → Disk → Option DataFile → Hit
unfolding delete_pair touch
with_data now r k m disk none = (none, delete_pair k disk)
with_data now r k m disk (some file) =
    if length file.bytes == m.size
    then (some (record { bytes = file.bytes; start = r.start; end = r.end }), touch now k file disk)
    else (none, delete_pair k disk)

unfoldable pub with_metadata : ℕ → ℕ → Range → String → Disk → Option Metadata → Hit
unfolding with_data
with_metadata now later r k disk none = (none, delete_pair k disk)
with_metadata now later r k disk (some m) =
    if leb m.expires_at now
    then (none, delete_pair k disk)
    else with_data later r k m disk (lookup k disk.bins)

-- `now` is the clock at the test of the expiry, `later` at the renewal of the time stamps.
unfoldable pub get : BlobCache → ℕ → ℕ → Range → Disk → Hit
unfolding with_metadata read_metadata
get c now later r disk =
    if cacheable c r.start r.end
    then with_metadata now later r (range_key c r) disk
        (read_metadata (lookup (range_key c r) disk.metas))
    else (none, disk)

-- An item of the list that `_prune_locked` collects.
pub record Entry : Type 0 where
  pub last_used : ℕ
  pub size : ℕ
  pub key : String

pub live_entry : ℕ → String → Metadata → DataFile → Option Entry
live_entry now k m file =
    if leb m.expires_at now || (m.size == 0)
    then none
    else some (record { last_used = file.mtime; size = m.size; key = k })

pub entry_of : ℕ → String → Option DataFile → MetaFile → Option Entry
unfolding live_entry
entry_of now k _ none = none
entry_of now k none (some m) = none
entry_of now k (some file) (some m) = live_entry now k m file

abbrev pub cons_some {ℓ} : {A : Type ℓ} → Option A → List A → List A
cons_some none xs = xs
cons_some (some x) xs = x ∷ xs

-- The entries that the first loop keeps, in the order of the directory.
pub entries : ℕ → Dict DataFile → Dict MetaFile → List Entry
entries now bins [] = []
entries now bins ((k, m) ∷ metas) =
    cons_some (entry_of now k (lookup k bins) m) (entries now bins metas)

-- The keys whose files the first loop deletes.
pub stale_keys : ℕ → Dict DataFile → Dict MetaFile → List String
stale_keys now bins [] = []
stale_keys now bins ((k, m) ∷ metas) =
    let rest = stale_keys now bins metas in
    elim (entry_of now k (lookup k bins) m) [ none ↦ k ∷ rest | some _ ↦ rest ]

pub total_size : List Entry → ℕ
total_size [] = 0
total_size (e ∷ es) = e.size + total_size es

-- `a <= b`, of texts
pub key_le : String → String → Bool
key_le a b = is_le (compare a b)

-- The order of the tuples (last_used, size, paths); `compare` is that of the paths' texts.
pub comes_first : Entry → Entry → Bool
unfolding key_le
comes_first a b =
    if a.last_used == b.last_used
    then (if a.size == b.size then key_le a.key b.key else ltb a.size b.size)
    else ltb a.last_used b.last_used

pub insert_sorted : Entry → List Entry → List Entry
insert_sorted e [] = e ∷ []
insert_sorted e (x ∷ xs) =
    let rest = insert_sorted e xs in if comes_first e x then e ∷ x ∷ xs else x ∷ rest

-- `sorted(entries)`
pub sorted : List Entry → List Entry
unfolding insert_sorted
sorted [] = []
sorted (e ∷ es) = insert_sorted e (sorted es)

-- The keys that the second loop deletes: from the front, until the total fits.
pub victims : ℕ → ℕ → List Entry → List String
victims max_bytes total [] = []
victims max_bytes total (e ∷ es) =
    let rest = victims max_bytes (total - e.size) es in
    e.key ∷ (if leb (total - e.size) max_bytes then [] else rest)

-- `_prune_locked`
pub prune : BlobCache → ℕ → Disk → Disk
prune c now disk =
    let live = entries now disk.bins disk.metas in
    let swept = delete_keys (stale_keys now disk.bins disk.metas) disk in
    if leb (total_size live) c.max_bytes
    then swept
    else delete_keys (victims c.max_bytes (total_size live) (sorted live)) swept

pub metadata_for : BlobCache → ℕ → Range → ℕ → Metadata
metadata_for c now r size = record {
  namespace = r.namespace;
  user_scope_hash = c.hash r.user_scope;
  asset_id = r.asset_id;
  start = r.start;
  end = r.end;
  size = size;
  created_at = now;
  expires_at = now + c.ttl_seconds;
}

-- The directory once both files of the key are in place. `written` is the clock at the writes.
unfoldable pub stored : ℕ → String → Metadata → List ℕ → Disk → Disk
unfolding write_data_tmp write_meta_tmp replace_data replace_meta
stored written k m bytes disk =
    replace_meta k m
      (replace_data written k bytes (write_meta_tmp k m (write_data_tmp k bytes disk)))

-- A pruning that fails while it sweeps, after a number of deletions.
unfoldable pub swept : ℕ → ℕ → Disk → Disk
swept pruned n disk = delete_keys (take n (stale_keys pruned disk.bins disk.metas)) disk

-- What the `try` has done when a step fails. `pruned` is the clock of the pruning.
unfoldable pub reached : ℕ → ℕ → String → Metadata → List ℕ → Disk → Step → Disk
unfolding stored swept
reached written pruned k m bytes disk mkdir_fails = disk
reached written pruned k m bytes disk (write_data_fails part) = write_data_tmp k part disk
reached written pruned k m bytes disk (write_meta_fails part) =
    write_meta_tmp k part (write_data_tmp k bytes disk)
reached written pruned k m bytes disk replace_data_fails =
    write_meta_tmp k m (write_data_tmp k bytes disk)
reached written pruned k m bytes disk replace_meta_fails =
    replace_data written k bytes (write_meta_tmp k m (write_data_tmp k bytes disk))
reached written pruned k m bytes disk (prune_fails n) =
    swept pruned n (stored written k m bytes disk)

-- The body under the lock.
unfoldable pub store : BlobCache → ℕ → ℕ → String → Metadata → List ℕ → Disk → Fault → Disk
unfolding stored reached delete_tmps
store c written pruned k m bytes disk none_at_all = prune c pruned (stored written k m bytes disk)
store c written pruned k m bytes disk (fails_at step) =
    delete_tmps k (reached written pruned k m bytes disk step)

-- `len(data) != end - start + 1`, for a range that is cacheable
pub has_length : List ℕ → Option ℕ → Bool
has_length bytes none = false
has_length bytes (some n) = length bytes == n

-- `now` is the clock in the metadata.
pub set : BlobCache → ℕ → ℕ → ℕ → Range → List ℕ → Disk → Fault → Disk
unfolding store metadata_for has_length
set c now written pruned r bytes disk fault =
    if cacheable c r.start r.end && has_length bytes (range_length r.start r.end)
    then store c written pruned (range_key c r) (metadata_for c now r (length bytes)) bytes disk
        fault
    else disk
