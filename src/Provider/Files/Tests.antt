-- ===== src/Provider/Files/Tests.antt =====
-- A request for three bytes of a file that is not cached.
use immich_bridge.Prelude.{ℕ, ◌≡◌, refl, ◌≢◌, none, some, false, List, [], ◌∷◌, arith, Bool-cases}
use immich_bridge.Json.{str, end, field, pos, obj, int}
use immich_bridge.BlobDisk.{Disk, Range, CachedByteRange, none_at_all, read_metadata}
use immich_bridge.BlobCache.{BlobCache, cacheable, get}
use immich_bridge.Dict.{lookup}
use immich_bridge.Client.Originals
use immich_bridge.Client.Originals.{Originals, Storage, range_of}
use immich_bridge.Client.Streams.{Response}
use immich_bridge.Text.{strip, split_once, parse_int, signed_value, digits_value}
use immich_bridge.Provider.ByteRanges.{
  byte_range_from_header, first_range, range_of_spec, range_of_texts, end_after,
}
use immich_bridge.Provider.{text_of, Provider, Environ, Asset, Filesystem, found}
use immich_bridge.Provider.Files.{get_content, get_content_length, exif_size, size_of}
use immich_bridge.Provider.Files.Ranged.{IsServedAt, get_content-IsServedAt}
use immich_bridge.Provider.Writes.{client, id_of}

abbrev library : Filesystem
library = record {
  albums = found [];
  range_has_assets = λ source r. found false;
  should_split_day = λ source r. found false;
  list_date_buckets = λ source r level. found [];
  list_hour_buckets = λ source r. found [];
  list_assets = λ source. found [];
  list_date_assets = λ source r. found [];
  list_hour_assets = λ source h. found [];
}

abbrev provider : Provider
provider = record {
  connect = λ key scope threshold. library;
  album_folder_split_threshold = 200;
  day_folder_split_threshold = 1000;
  upload_receipt_ttl_seconds = 30;
  mount = end;
  write_policy = end;
  enabled_views = [];
  sha256 = λ text. text;
  casefold = λ text. text;
  other_str = λ v. "";
}

abbrev request : Environ
request = record { api_key = some "key"; user_id = str "u1" }

abbrev photo : Asset
photo =
    field "id" (str "a1") (field "exifInfo" (obj (field "fileSizeInByte" (int (pos 6)) end)) end)

abbrev blob_cache : BlobCache
blob_cache = record {
  max_bytes = 100;
  max_range_bytes = 10;
  ttl_seconds = 60;
  hash = λ text. text;
  key = λ namespace scope id start end. id;
}

abbrev no_files : Disk
no_files = record { stuck = λ kind k. false; bins = []; metas = []; bin_tmps = []; meta_tmps = [] }

abbrev three_bytes : Response
three_bytes = record { chunks = (3 ∷ []) ∷ (4 ∷ 5 ∷ []) ∷ []; breaks = false }

abbrev originals : Originals
originals = record {
  send = λ id header. Originals.response 206 three_bytes;
  blob_cache = some blob_cache;
  blob_cache_namespace = "immich";
  user_scope = "u1";
}

abbrev storage : Storage
storage = record {
  looked = 1;
  renewed = 1;
  described = 2;
  written = 2;
  pruned = 2;
  fault = none_at_all;
}

abbrev file : List ℕ
file = 1 ∷ 2 ∷ 3 ∷ 4 ∷ 5 ∷ 6 ∷ []

photo_length : get_content_length photo ≡ some (pos 6)
unfolding get_content_length exif_size size_of
photo_length = refl

-- Nothing is cached in an empty directory.
nothing_cached :
    (cache : BlobCache) (hit : CachedByteRange) (r : Range)
    → (get cache 1 1 r no_files).0 ≢ some hit
unfolding get lookup read_metadata
nothing_cached cache hit r e = ground (arith, Bool-cases (cacheable cache r.start r.end))

get_content-IsServedAt_example :
    IsServedAt 2
      (3 ∷ 4 ∷ 5 ∷ [])
      (get_content provider
        (λ name. none)
        (λ text. text)
        (λ key. originals)
        storage
        request
        (str "bytes=2-4")
        photo
        no_files).0
unfolding client id_of byte_range_from_header first_range range_of_spec range_of_texts end_after
    split_once strip parse_int signed_value digits_value text_of
get_content-IsServedAt_example =
    get_content-IsServedAt provider (λ name. none) (λ text. text) (λ key. originals) storage request
      "key" photo "a1" (str "bytes=2-4") 2 4 three_bytes file no_files refl refl refl refl refl refl
      (λ cache hit on e. absurd (nothing_cached cache hit (range_of originals "a1" 2 4) e))
