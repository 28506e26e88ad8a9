-- ===== src/Client/Originals.antt =====
-- src/immich_bridge/immich_client.py: how an original file is opened, from the cache of byte ranges or
-- from Immich.
pub mod Served
use immich_bridge.Prelude.{
  ℕ, zero, suc, ◌+◌, ◌-◌, String, Bool, true, false, not, ◌&&◌, Option, none, some, List, [], ◌∷◌,
  length, leb, ◌==◌, if◌then◌else◌, concat,
}
use immich_bridge.Json.{pos}
use immich_bridge.BlobDisk.{Disk, Range, CachedByteRange, Fault}
use immich_bridge.BlobCache.{BlobCache, cacheable, get, set}
use immich_bridge.Provider.Views.{decimal}
use immich_bridge.Service.{Answer, found, api_error, truncated, other_error, unfinished}
use immich_bridge.Client.Streams.{CachedRangeStream, ImmichOriginalStream, Response, joined}

-- What the request for an original gives: a time-out or a failed connection, or a status with a body.
pub data Opening : Type 0 where
  no_response : Opening
  response : ℕ → Response → Opening

-- The client, as far as original files go. `send` takes the asset's id and the `Range` header.
pub record Originals : Type 0 where
  pub send : String → Option String → Opening
  pub blob_cache : Option BlobCache
  pub blob_cache_namespace : String
  pub user_scope : String

-- What the calls of the blob cache take: the clock, as often as they read it, and the fault of a file
-- operation, if there is one.
pub record Storage : Type 0 where
  pub looked : ℕ
  pub renewed : ℕ
  pub described : ℕ
  pub written : ℕ
  pub pruned : ℕ
  pub fault : Fault

abbrev or_zero : Option ℕ → ℕ
or_zero none = 0
or_zero (some n) = n

unfoldable pub range_header : Option ℕ → Option ℕ → Option String
range_header start (some end) =
    some (concat "bytes=" (concat (decimal (or_zero start)) (concat "-" (decimal end))))
range_header (some (suc n)) none = some (concat "bytes=" (concat (decimal (suc n)) "-"))
range_header (some zero) none = none
range_header none none = none

abbrev is_asked : Option String → Bool
is_asked none = false
is_asked (some header) = true

-- What is made of the status: `asked` says whether a range was asked for.
unfoldable pub accepted : Bool → Opening → Answer Response
accepted asked no_response = api_error none
accepted asked (response status body) =
    if status == 404
    then api_error (some 404)
    else if leb 400 status
    then api_error (some status)
    else if asked && not (status == 206)
    then api_error (some status)
    else found body

-- `response.read()`
unfoldable pub read_body : Response → Answer (List ℕ)
read_body body = if body.breaks then other_error else found (joined body.chunks)

pub data Opened : Type 0 where
  from_cache : CachedRangeStream → Opened
  from_server : ImmichOriginalStream → Opened

-- The stream of a range of bytes that begins at `start`; seeks go up to `stop`.
unfoldable pub range_stream : ℕ → ℕ → List ℕ → CachedRangeStream
range_stream start stop bytes = record {
  content = bytes;
  start = start;
  stop = stop;
  position = start;
}

module _ (c : Originals) where
  unfoldable pub open_original_response : String → Option ℕ → Option ℕ → Answer Response
  unfolding range_header accepted
  open_original_response asset_id start end =
      accepted (is_asked (range_header start end)) (c.send asset_id (range_header start end))

  abbrev pub range_of : String → ℕ → ℕ → Range
  range_of asset_id start end = record {
    namespace = c.blob_cache_namespace;
    user_scope = c.user_scope;
    asset_id = asset_id;
    start = pos start;
    end = pos end;
  }

  -- What follows the answer of Immich in `_open_cached_range`.
  unfoldable pub keep_range :
      BlobCache
      → Storage
      → String
      → ℕ
      → ℕ
      → Disk
      → Answer (List ℕ)
      → Answer CachedRangeStream × Disk
  unfolding range_stream
  keep_range cache t asset_id start end disk (found bytes) = (
    found (range_stream start (start + length bytes) bytes),
    if length bytes == end + 1 - start
        then set cache t.described t.written t.pruned (range_of asset_id start end) bytes disk
            t.fault
        else disk,
  )
  keep_range cache t asset_id start end disk (api_error status) = (api_error status, disk)
  keep_range cache t asset_id start end disk truncated = (truncated, disk)
  keep_range cache t asset_id start end disk other_error = (other_error, disk)
  keep_range cache t asset_id start end disk unfinished = (unfinished, disk)

  abbrev pub body_bytes : Answer Response → Answer (List ℕ)
  body_bytes (found body) = read_body body
  body_bytes (api_error status) = api_error status
  body_bytes truncated = truncated
  body_bytes other_error = other_error
  body_bytes unfinished = unfinished

  -- What follows the look into the cache.
  unfoldable pub after_look :
      BlobCache
      → Storage
      → String
      → ℕ
      → ℕ
      → Option CachedByteRange × Disk
      → Answer CachedRangeStream × Disk
  unfolding keep_range range_stream open_original_response read_body
  after_look cache t asset_id start end (some hit, disk) =
      (found (range_stream start (end + 1) hit.bytes), disk)
  after_look cache t asset_id start end (none, disk) =
      keep_range cache t asset_id start end disk
        (body_bytes (open_original_response asset_id (some start) (some end)))

  abbrev pub wrapped : Answer CachedRangeStream × Disk → Answer (Option CachedRangeStream) × Disk
  wrapped (found stream, disk) = (found (some stream), disk)
  wrapped (api_error status, disk) = (api_error status, disk)
  wrapped (truncated, disk) = (truncated, disk)
  wrapped (other_error, disk) = (other_error, disk)
  wrapped (unfinished, disk) = (unfinished, disk)

  unfoldable pub open_cached_range :
      Storage → String → ℕ → ℕ → Disk → Answer (Option CachedRangeStream) × Disk
  unfolding after_look
  open_cached_range t asset_id start end disk = elim c.blob_cache [
    | none ↦ (found none, disk)
    | some cache ↦
        if cacheable cache (pos start) (pos end)
        then wrapped (
            after_look cache t asset_id start end
              (get cache t.looked t.renewed (range_of asset_id start end) disk))
        else (found none, disk)
  ]

  abbrev pub server_stream : Option ℕ → Option ℕ → Response → Opened
  server_stream start end body = from_server (record {
    rest = body;
    buffer = [];
    position = or_zero start;
    started_reading = false;
    range_end = end;
  })

  unfoldable pub open_uncached : String → Option ℕ → Option ℕ → Answer Opened
  unfolding open_original_response
  open_uncached asset_id start end = elim (open_original_response asset_id start end) [
    | found body ↦ found (server_stream start end body)
    | api_error status ↦ api_error status
    | truncated ↦ truncated
    | other_error ↦ other_error
    | unfinished ↦ unfinished
  ]

  -- A stream of the cache is returned; where there is none, Immich is asked.
  unfoldable pub or_uncached :
      String → ℕ → ℕ → Answer (Option CachedRangeStream) × Disk → Answer Opened × Disk
  unfolding open_uncached
  or_uncached asset_id start end (found (some stream), disk) = (found (from_cache stream), disk)
  or_uncached asset_id start end (found none, disk) =
      (open_uncached asset_id (some start) (some end), disk)
  or_uncached asset_id start end (api_error status, disk) = (api_error status, disk)
  or_uncached asset_id start end (truncated, disk) = (truncated, disk)
  or_uncached asset_id start end (other_error, disk) = (other_error, disk)
  or_uncached asset_id start end (unfinished, disk) = (unfinished, disk)

  unfoldable pub open_original :
      Storage → String → Option ℕ → Option ℕ → Disk → Answer Opened × Disk
  unfolding open_cached_range or_uncached open_uncached
  open_original t asset_id (some start) (some end) disk =
      or_uncached asset_id start end (open_cached_range t asset_id start end disk)
  open_original t asset_id none end disk = (open_uncached asset_id none end, disk)
  open_original t asset_id (some start) none disk = (open_uncached asset_id (some start) none, disk)
