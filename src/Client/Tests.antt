-- ===== src/Client/Tests.antt =====
-- A server that answers every request, one that fails, and a range that is read in two ways.
use immich_bridge.Prelude.{List, ℕ, ◌≡◌, refl, false, none, some, [], ◌∷◌, arith}
use immich_bridge.Json.{Value, str, end, pos}
use immich_bridge.Service.{found, api_error}
use immich_bridge.Client.{
  ImmichClient, HttpRequest, World, Call, Ticks, response, parsed, cache_key, cached, changing,
}
use immich_bridge.Client.Laws.{stored_in, served_stale, change_forgets}
use immich_bridge.Dict.{lookup}
use immich_bridge.BlobDisk.{read_metadata, Disk, none_at_all}
use immich_bridge.BlobCache.{BlobCache, get, cacheable, with_metadata, with_data}
use immich_bridge.Client.Originals
use immich_bridge.Client.Originals.{
  Originals, Storage, open_original, open_cached_range, after_look, or_uncached, from_cache,
  range_stream,
}
use immich_bridge.Client.Originals.Served.{IsFrom, open_original-IsFrom}
use immich_bridge.Client.Streams.{
  Response, CachedRangeStream, ImmichOriginalStream, read, read_some, done,
}
use immich_bridge.Client.Streams.Agree.{IsSame, read-IsSame}

abbrev client : ImmichClient
client = record {
  send = λ sent r. response 200 (parsed (str "answer"));
  dumps = λ body. "{}";
  sha256 = λ text. text;
  user_scope = "ann";
  album_cache_ttl_seconds = 60;
  search_cache_ttl_seconds = 30;
  asset_cache_ttl_seconds = 300;
}

abbrev fresh : World
fresh = record { cache = []; sent = [] }

abbrev at : ℕ → Ticks
at now = record { looked = now; stale_looked = now; stored = now; stale_stored = now }

abbrev fails : Call Value
fails w = (api_error (some 502), w)

served_stale_example :
    (cached client
      (at 71)
      "albums"
      60
      fails
      (stored_in client (at 10) "albums" 60 (str "one") fresh)).0
    ≡ found (str "one")
served_stale_example =
    served_stale client (at 10) (at 71) "albums" 60 (str "one") fresh fails (some 502) (omega arith)
      (omega arith) (omega arith) (λ x. (refl, refl))

abbrev change : HttpRequest
change = record { method = "POST"; path = "albums"; json_body = none }

change_forgets_example :
    (x : World) × (x.sent ≡ change ∷ [])
    × ((cached client
          (at 20)
          (cache_key client "albums" end)
          60
          fails
          (changing client change fresh).1).0
        ≡ api_error (some 502))
unfolding changing
change_forgets_example =
    change_forgets client change fresh (str "answer") (at 20) "albums" end 60 fails refl
      (omega arith) (λ x. refl)

-- Bytes 100 to 104 of a file.
abbrev cached_range : CachedRangeStream
cached_range = record { content = 1 ∷ 2 ∷ 3 ∷ 4 ∷ 5 ∷ []; start = 100; stop = 105; position = 101 }

abbrev original : ImmichOriginalStream
original = record {
  rest = record { chunks = (2 ∷ []) ∷ (3 ∷ 4 ∷ 5 ∷ []) ∷ []; breaks = false };
  buffer = [];
  position = 101;
  started_reading = false;
  range_end = some 104;
}

both-IsSame : IsSame cached_range original
both-IsSame = record { inside = omega arith; at_offset = refl; unbroken = refl; bytes = refl }

read-IsSame_example :
    ((read_some 2 original).0 ≡ done (read (some 2) cached_range).0)
    × IsSame (read (some 2) cached_range).1 (read_some 2 original).1
read-IsSame_example = read-IsSame 2 cached_range original both-IsSame

two_bytes : (read (some 2) cached_range).0 ≡ 2 ∷ 3 ∷ []
unfolding read
two_bytes = refl

abbrev blob_cache : BlobCache
blob_cache = record {
  max_bytes = 100;
  max_range_bytes = 10;
  ttl_seconds = 60;
  hash = λ text. text;
  key = λ namespace scope id start end. id;
}

abbrev no_files : Disk
no_files = record { stuck = λ kind k. false; bins = []; metas = []; bin_tmps = []; meta_tmps = [] }

abbrev served_body : Response
served_body = record { chunks = (3 ∷ []) ∷ (4 ∷ 5 ∷ []) ∷ []; breaks = false }

abbrev originals : Originals
originals = record {
  send = λ id header. Originals.response 206 served_body;
  blob_cache = some blob_cache;
  blob_cache_namespace = "immich";
  user_scope = "ann";
}

abbrev storage : Storage
storage = record {
  looked = 1;
  renewed = 1;
  described = 2;
  written = 2;
  pruned = 2;
  fault = none_at_all;
}

abbrev file : List ℕ
file = 1 ∷ 2 ∷ 3 ∷ 4 ∷ 5 ∷ 6 ∷ []

-- The directory has the bytes 2 to 4 of the asset.
abbrev three_cached : Disk
three_cached = record {
  stuck = λ kind k. false;
  bins = ("a", record { bytes = 3 ∷ 4 ∷ 5 ∷ []; mtime = 1 }) ∷ [];
  metas =
      (
        "a",
        some (record {
          namespace = "immich";
          user_scope_hash = "ann";
          asset_id = "a";
          start = pos 2;
          end = pos 4;
          size = 3;
          created_at = 1;
          expires_at = 60;
        }),
      )
      ∷ [];
  bin_tmps = [];
  meta_tmps = [];
}

open_original-IsFrom_example :
    IsFrom originals storage "a" 2 4 three_cached (from_cache (range_stream 2 5 (3 ∷ 4 ∷ 5 ∷ [])))
unfolding open_original open_cached_range after_look or_uncached get lookup read_metadata
    with_metadata with_data range_stream cacheable
open_original-IsFrom_example =
    open_original-IsFrom originals storage "a" 2 4 three_cached
      (from_cache (range_stream 2 5 (3 ∷ 4 ∷ 5 ∷ []))) refl
