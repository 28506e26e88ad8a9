-- ===== src/Provider/Files/Ranged.antt =====
-- src/immich_bridge/webdav_provider.py, `AssetResource.get_content`: what a request for a part of a file
-- gets.
use immich_bridge.Prelude.{ℕ, ◌≡◌, refl, String, false, Option, some, List}
use immich_bridge.Json.{Value}
use immich_bridge.BlobDisk.{Disk, CachedByteRange}
use immich_bridge.BlobCache.{BlobCache, get}
use immich_bridge.Service.{Answer}
use immich_bridge.Client.Streams.{Response, joined}
use immich_bridge.Client.Originals.{Originals, Storage, Opened, range_of, open_original}
use immich_bridge.Client.Originals.Served.{
  Honored, slice, bytes_left, offset_of, IsOpenAt, open_original-IsOpenAt,
}
use immich_bridge.Provider.{Result, ok, Asset, Environ, Provider}
use immich_bridge.Provider.ByteRanges.{byte_range_from_header}
use immich_bridge.Provider.Writes.{client, id_of}
use immich_bridge.Provider.Files.{with_dav_errors, get_content}

-- The request succeeded with a stream at the start of the range that holds its bytes.
pub record IsServedAt (start : ℕ) (bytes : List ℕ) (r : Result Opened) : Type 0 where
  pub opened : Opened
  pub is_ok : r ≡ ok opened
  pub at_start : offset_of opened ≡ start
  pub holds : bytes_left opened ≡ bytes

with_dav_errors-IsServedAt :
    (start : ℕ) (bytes : List ℕ) (answer : Answer Opened)
    → IsOpenAt start bytes answer
    → IsServedAt start bytes (with_dav_errors answer)
unfolding with_dav_errors
with_dav_errors-IsServedAt start bytes answer o = record {
  opened = o.opened;
  is_ok = rw o.is_found refl;
  at_start = o.at_start;
  holds = o.holds;
}

module _ (p : Provider) (guess_type : String → Option String) (sha1 : String → String)
    (library : String → Originals) (t : Storage) (env : Environ) (key : String) (a : Asset)
    (asset_id : String) where
  -- A request for an asset's content whose Range header is read as the bytes from `start` to `end`,
  -- from a user with an API key, succeeds with a stream that stands at `start` and holds exactly those
  -- bytes of the file, if Immich honors the request for the range under that key with the file's
  -- bytes, and what the blob cache has for the range, if it has anything, are the file's bytes too.
  pub get_content-IsServedAt :
      (header : Value) (start end : ℕ) (body : Response) (file : List ℕ) (disk : Disk)
      → client env ≡ ok key
      → id_of p a ≡ ok asset_id
      → byte_range_from_header header ≡ some (record { start = start; end = some end })
      → Honored (library key) t asset_id start end body
      → body.breaks ≡ false
      → joined body.chunks ≡ slice file start end
      → ((cache : BlobCache) (hit : CachedByteRange)
          → (library key).blob_cache ≡ some cache
          → (get cache t.looked t.renewed (range_of (library key) asset_id start end) disk).0
            ≡ some hit
          → hit.bytes ≡ slice file start end)
      → IsServedAt start
          (slice file start end)
          (get_content p guess_type sha1 library t env header a disk).0
  unfolding get_content
  get_content-IsServedAt header start end body file disk k i r h whole e faithful =
      rw (r, k, i)
        (with_dav_errors-IsServedAt start (slice file start end)
          (open_original (library key) t asset_id (some start) (some end) disk).0
          (open_original-IsOpenAt (library key) t asset_id start end body file disk h whole e
            faithful))
