-- ===== src/BlobCache/Reads.antt =====
-- src/immich_bridge/blob_cache.py, `get`: hits and misses.
use immich_bridge.Prelude.{
  ℕ, ◌<◌, ◌≡◌, refl, true, Option, none, some, arith, length, Bool-cases, inl, inr,
}
use immich_bridge.Dict.{lookup}
use immich_bridge.BlobCache.{BlobCache, cacheable, range_key, with_data, with_metadata, get}
use immich_bridge.BlobDisk.{
  Range, CachedByteRange, DataFile, Metadata, MetaFile, Disk, read_metadata, touch,
}

-- A hit serves the bytes on disk, of the length that unexpired metadata states.
pub record IsHit (c : BlobCache) (now : ℕ) (r : Range) (disk : Disk) (hit : CachedByteRange)
    : Type 0 where
  pub metadata : Metadata
  pub file : DataFile
  pub described : lookup (range_key c r) disk.metas ≡ some (some metadata)
  pub stored : lookup (range_key c r) disk.bins ≡ some file
  pub fresh : now < metadata.expires_at
  pub whole : length file.bytes ≡ metadata.size
  pub served : hit ≡ record { bytes = file.bytes; start = r.start; end = r.end }

module _ (c : BlobCache) (now later : ℕ) (r : Range) where
  with_data_sound :
      (m : Metadata) (disk : Disk) (file : Option DataFile) (hit : CachedByteRange)
      → (with_data later r (range_key c r) m disk file).0 ≡ some hit
      → (f : DataFile) × (file ≡ some f)
        × (length f.bytes ≡ m.size)
        × (hit ≡ record { bytes = f.bytes; start = r.start; end = r.end })
  unfolding with_data
  with_data_sound m disk none hit h = cc
  with_data_sound m disk (some f) hit h = (f, refl, ground arith, ground arith)

  with_metadata_sound :
      (disk : Disk) (o : Option MetaFile) (hit : CachedByteRange)
      → lookup (range_key c r) disk.metas ≡ o
      → (with_metadata now later r (range_key c r) disk (read_metadata o)).0 ≡ some hit
      → IsHit c now r disk hit
  unfolding with_metadata read_metadata
  with_metadata_sound disk none hit e h = cc
  with_metadata_sound disk (some none) hit e h = cc
  with_metadata_sound disk (some (some m)) hit e h =
      let (f, stored, whole, served) =
        with_data_sound m disk (lookup (range_key c r) disk.bins) hit (ground arith) in
      record {
        metadata = m;
        file = f;
        described = e;
        stored = stored;
        fresh = ground arith;
        whole = whole;
        served = served;
      }

  -- A hit is served only for a range that is cacheable, with metadata that has not expired and a data
  -- file of exactly the recorded size, whose bytes are served.
  pub get_sound :
      (disk : Disk) (hit : CachedByteRange)
      → (get c now later r disk).0 ≡ some hit
      → (cacheable c r.start r.end ≡ true) × IsHit c now r disk hit
  unfolding get
  get_sound disk hit h = elim (Bool-cases (cacheable c r.start r.end)) [
    | inl ok ↦ (
      ok,
      with_metadata_sound disk (lookup (range_key c r) disk.metas) hit refl (rw (ok, get) at h),
    )
    | inr skip ↦ absurd (ground arith)
  ]

  -- Where a hit stands, `get` returns it, and renews the time stamp of the data alone.
  pub get_hit :
      (disk : Disk) (hit : CachedByteRange)
      → cacheable c r.start r.end ≡ true
      → (v : IsHit c now r disk hit)
      → get c now later r disk ≡ (some hit, touch later (range_key c r) v.file disk)
  unfolding get
  get_hit disk hit ok v =
      rw (ok, v.described, v.stored, v.whole, v.served) (ground (arith, v.fresh))
