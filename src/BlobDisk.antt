-- ===== src/BlobDisk.antt =====
-- src/immich_bridge/blob_cache.py: the files of the cache of byte ranges, and the steps on them.
use immich_bridge.Prelude.{
  ℕ, String, Bool, not, ◌||◌, Option, none, some, List, elem, if◌then◌else◌,
}
use immich_bridge.Json.{ℤ}
use immich_bridge.Dict.{Dict, insert, keep_keys, delete}

pub record DataFile : Type 0 where
  pub bytes : List ℕ
  pub mtime : ℕ

pub record Metadata : Type 0 where
  pub namespace : String
  pub user_scope_hash : String
  pub asset_id : String
  pub start : ℤ
  pub end : ℤ
  pub size : ℕ
  pub created_at : ℕ
  pub expires_at : ℕ

-- `none` is a file that `_read_metadata` cannot read as a JSON object.
abbrev pub MetaFile : Type 0
MetaFile = Option Metadata

-- The four sorts of file of a key.
pub data FileKind : Type 0 where
  data_file meta_file data_tmp meta_tmp : FileKind

-- The directory. `stuck` says which files cannot be unlinked: the `OSError` is swallowed.
pub record Disk : Type 0 where
  pub stuck : FileKind → String → Bool
  pub bins : Dict DataFile
  pub metas : Dict MetaFile
  pub bin_tmps : Dict (List ℕ)
  pub meta_tmps : Dict Metadata

-- The keyword arguments that `get` and `set` share.
pub record Range : Type 0 where
  pub namespace : String
  pub user_scope : String
  pub asset_id : String
  pub start : ℤ
  pub end : ℤ

pub record CachedByteRange : Type 0 where
  pub bytes : List ℕ
  pub start : ℤ
  pub end : ℤ

-- `_delete_pair`, on the files of a key
unfoldable pub delete_pair : String → Disk → Disk
delete_pair k disk = record disk {
  bins = if disk.stuck data_file k then disk.bins else delete k disk.bins;
  metas = if disk.stuck meta_file k then disk.metas else delete k disk.metas;
}

-- `_read_metadata`: a file that is missing and a file that does not parse are the same
unfoldable pub read_metadata : Option MetaFile → Option Metadata
read_metadata none = none
read_metadata (some m) = m

-- The time stamps that a hit renews.
unfoldable pub touch : ℕ → String → DataFile → Disk → Disk
touch now k file disk = record disk { bins = insert k (record file { mtime = now }) disk.bins }

-- `_delete_pair`, on the files of each of the keys
unfoldable pub delete_keys : List String → Disk → Disk
delete_keys ks disk = record disk {
  bins = keep_keys (λ k. not (elem k ks) || disk.stuck data_file k) disk.bins;
  metas = keep_keys (λ k. not (elem k ks) || disk.stuck meta_file k) disk.metas;
}

-- What `set` does under its `try`, up to the failure, with what a failed write left in its file, and
-- with the number of keys that a failed pruning had deleted.
pub data Step : Type 0 where
  mkdir_fails replace_data_fails replace_meta_fails : Step
  write_data_fails : List ℕ → Step
  write_meta_fails : Metadata → Step
  prune_fails : ℕ → Step

-- Where an `OSError` that is caught strikes `set`, if it does.
pub data Fault : Type 0 where
  none_at_all : Fault
  fails_at : Step → Fault

unfoldable pub write_data_tmp : String → List ℕ → Disk → Disk
write_data_tmp k bytes disk = record disk { bin_tmps = insert k bytes disk.bin_tmps }

unfoldable pub write_meta_tmp : String → Metadata → Disk → Disk
write_meta_tmp k m disk = record disk { meta_tmps = insert k m disk.meta_tmps }

-- `os.replace(data_tmp, data_path)`
unfoldable pub replace_data : ℕ → String → List ℕ → Disk → Disk
replace_data now k bytes disk = record disk {
  bins = insert k (record { bytes = bytes; mtime = now }) disk.bins;
  bin_tmps = delete k disk.bin_tmps;
}

-- `os.replace(meta_tmp, meta_path)`
unfoldable pub replace_meta : String → Metadata → Disk → Disk
replace_meta k m disk = record disk {
  metas = insert k (some m) disk.metas;
  meta_tmps = delete k disk.meta_tmps;
}

-- `_delete_pair(data_tmp, meta_tmp)`
unfoldable pub delete_tmps : String → Disk → Disk
delete_tmps k disk = record disk {
  bin_tmps = if disk.stuck data_tmp k then disk.bin_tmps else delete k disk.bin_tmps;
  meta_tmps = if disk.stuck meta_tmp k then disk.meta_tmps else delete k disk.meta_tmps;
}
