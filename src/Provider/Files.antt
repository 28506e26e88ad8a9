-- ===== src/Provider/Files.antt =====
-- src/immich_bridge/webdav_provider.py: what `AssetResource` answers of a file, its length, type, tag
-- and content. The time stamps are left out.
pub mod Ranged
mod Tests
use immich_bridge.Prelude.{ℕ, String, Bool, true, false, Option, none, some, if◌then◌else◌, concat}
use immich_bridge.Json.{ℤ, pos, Value, int, bool, Fields, get, truthy, as_dict}
use immich_bridge.BlobDisk.{Disk}
use immich_bridge.Service
use immich_bridge.Service.{Answer}
use immich_bridge.Client.Originals.{Originals, Storage, Opened, open_original}
use immich_bridge.Provider.{
  internal_error, Result, ok, raise, immich_error_to_dav, Asset, Environ, Provider,
}
use immich_bridge.Provider.Views.{text_or}
use immich_bridge.Provider.ByteRanges.{ByteRange, byte_range_from_header}
use immich_bridge.Provider.Writes.{client, id_of, or_octet_stream}
use mathlib.Core.Option

-- `int(size) if isinstance(size, (int, float)) else None`; a Boolean is an `int`
unfoldable pub size_of : Value → Option ℤ
size_of (int z) = some z
size_of (bool true) = some (pos 1)
size_of (bool false) = some (pos 0)
size_of _ = none

-- `exif.get("fileSizeInByte")` of an `exifInfo` that may be no object
unfoldable pub exif_size : Option Fields → Option ℤ
unfolding size_of
exif_size none = none
exif_size (some exif) = size_of (get exif "fileSizeInByte")

unfoldable pub get_content_length : Asset → Option ℤ
unfolding exif_size
get_content_length a =
    if truthy (get a "exifInfo") then exif_size (as_dict (get a "exifInfo")) else none

unfoldable pub support_ranges : Asset → Bool
unfolding get_content_length
support_ranges a = elim (get_content_length a) [ none ↦ false | some size ↦ true ]

-- An `ImmichApiError` becomes a `DAVError`; any other exception passes.
unfoldable pub with_dav_errors {ℓ} : {A : Type ℓ} → Answer A → Result A
with_dav_errors (Service.found a) = ok a
with_dav_errors (Service.api_error status) = raise (immich_error_to_dav status)
with_dav_errors Service.truncated = raise internal_error
with_dav_errors Service.other_error = raise internal_error
with_dav_errors Service.unfinished = raise internal_error

unfoldable pub range_start : Option ByteRange → Option ℕ
range_start byte_range = Option.map (λ (r : ByteRange). r.start) byte_range

unfoldable pub range_end : Option ByteRange → Option ℕ
range_end none = none
range_end (some r) = r.end

-- The provider, `mimetypes.guess_type` of a name, SHA-1, and the client of Immich for an API key.
module _ (p : Provider) (guess_type : String → Option String) (sha1 : String → String)
    (library : String → Originals) where
  unfoldable pub get_content_type : String → Asset → String
  get_content_type name a = text_or p (get a "originalMimeType") (or_octet_stream (guess_type name))

  unfoldable pub get_etag : Asset → String
  get_etag a = sha1 (
      concat (text_or p (get a "id") "") (
        concat ":" (
          concat (text_or p (get a "checksum") "")
            (concat ":" (text_or p (get a "updatedAt") "")))))

  -- The request for the original of an asset, whose id is known.
  unfoldable pub request_original :
      Storage → String → Option ByteRange → Disk → Result String → Result Opened × Disk
  unfolding with_dav_errors range_start range_end
  request_original t key byte_range disk (raise e) = (raise e, disk)
  request_original t key byte_range disk (ok asset_id) =
      let answer =
        open_original (library key) t asset_id (range_start byte_range) (range_end byte_range)
          disk in
      (with_dav_errors answer.0, answer.1)

  unfoldable pub request_as :
      Storage → Option ByteRange → Asset → Disk → Result String → Result Opened × Disk
  unfolding request_original
  request_as t byte_range a disk (raise e) = (raise e, disk)
  request_as t byte_range a disk (ok key) = request_original t key byte_range disk (id_of p a)

  -- `header` is `environ.get("HTTP_RANGE")`.
  unfoldable pub get_content : Storage → Environ → Value → Asset → Disk → Result Opened × Disk
  unfolding request_as
  get_content t env header a disk = request_as t (byte_range_from_header header) a disk (client env)
