-- ===== src/Provider/Writes.antt =====
-- src/immich_bridge/webdav_provider.py: the requests that change something, `create_empty_resource`,
-- `create_collection`, the upload of a staged file, and `handle_delete`.
pub mod Laws
pub mod Uploads
pub mod Keys
use immich_bridge.Prelude.{
  ℕ, ◌+◌, String, Bool, true, false, not, ◌||◌, Option, none, some, List, [], ◌∷◌, ◌++◌, ◌==◌,
  length, elem, any, if◌then◌else◌, str_eq,
}
use immich_bridge.Json.{pos, Fields, find}
use immich_bridge.Cache.{InMemoryCache}
use immich_bridge.Text.{codes}
use immich_bridge.Paths.{split_slash, child_path}
use immich_bridge.Provider.{
  forbidden, insufficient_storage, internal_error, Result, ok, raise, FsResult, run_fs, album_id,
  Resource, root, albums_root, album, asset, upload, macos_metadata, Receipt, Environ, Provider,
  text_of, present_key,
}
use immich_bridge.Provider.Settings.{write_allowed, remember_upload_receipt}
use immich_bridge.Provider.Names.{readme_filename, is_macos_metadata_file}
use Prim.Native.Char.{code}
use text.Mathlib.Text.{starts_with}
use mathlib.Core.Option
use immich_bridge.Provider.Staging.{
  Upload, UploadSink, begin_write, close, new_upload, write, writelines,
}
use immich_bridge.Provider.Requests.{
  Platform, Request, Step, World, add_asset_to_album, create_album, done, give,
  remove_asset_from_album, send, upload_asset, ◌>>=◌,
}

abbrev pub media_upload_extensions : List String
media_upload_extensions =
    ".3gp" ∷ ".ari" ∷ ".arw" ∷ ".avi" ∷ ".avif" ∷ ".cr2" ∷ ".cr3" ∷ ".dng" ∷ ".gif" ∷ ".heic"
    ∷ ".heif" ∷ ".jpeg" ∷ ".jpg" ∷ ".m4v" ∷ ".mkv" ∷ ".mov" ∷ ".mp4" ∷ ".mpeg" ∷ ".mpg" ∷ ".nef"
    ∷ ".orf" ∷ ".png" ∷ ".raf" ∷ ".raw" ∷ ".rw2" ∷ ".tif" ∷ ".tiff" ∷ ".webm" ∷ ".webp" ∷ []

abbrev pub has_code : ℕ → String → Bool
has_code n s = any (λ c. c == n) (codes s)

-- the text from the last dot on
abbrev from_last_dot : String → String
from_last_dot String.[] = ""
from_last_dot (String.◌∷◌ c s) =
    let rest = from_last_dot s in
    if has_code b'.' s then rest else if code c == b'.' then String.◌∷◌ c s else ""

-- `Path(name).suffix`: the last dot is neither the first character nor the last.
unfoldable pub suffix : String → String
suffix String.[] = ""
suffix (String.◌∷◌ c s) = if str_eq (from_last_dot s) "." then "" else from_last_dot s

abbrev is_medium : List String → Bool
is_medium [] = false
is_medium (first ∷ rest) = elem first ("image" ∷ "video" ∷ [])

unfoldable pub is_supported_media_upload_name : Platform → String → Bool
unfolding suffix
is_supported_media_upload_name platform name =
    if str_eq name "" || has_code b'/' name || elem name (readme_filename ∷ ".well-known" ∷ [])
    then false
    else if elem name ("Albums" ∷ "Timeline" ∷ "Favorites" ∷ "Views" ∷ [])
        || is_macos_metadata_file name
    then false
    else if starts_with name "."
    then false
    else if elem (platform.lower (suffix name)) media_upload_extensions
    then true
    else elim (platform.guess_type name) [ none ↦ false | some t ↦ is_medium (split_slash t) ]

-- `payload["id"]` and `asset["id"]`; a `KeyError` is not caught
unfoldable pub id_of : Provider → Fields → Result String
id_of p d = elim (find d "id") [ none ↦ raise internal_error | some v ↦ ok (text_of p v) ]

-- `_client`
unfoldable pub client : Environ → Result String
client env = elim (present_key env.api_key) [ none ↦ raise forbidden | some key ↦ ok key ]

abbrev pub or_octet_stream : Option String → String
or_octet_stream t = Option.get_or (present_key t) "application/octet-stream"

module _ (p : Provider) (platform : Platform) (env : Environ) where
  pub create_album_step : String → Step Fields
  unfolding client send
  create_album_step name = do key ← give (client env); send platform (create_album name)

  -- The membership of an uploaded asset, if the upload went to an album.
  unfoldable pub add_to_album : Option String → String → Step Fields
  unfolding send
  add_to_album none asset_id = done Fields.end
  add_to_album (some album_id) asset_id = send platform (add_asset_to_album album_id asset_id)

  unfoldable pub remember : ℕ → String → Receipt → String → Step Bool
  remember now path receipt created_at w = (
    ok true,
    record w { cache = remember_upload_receipt p now path env receipt created_at w.cache },
  )

  -- The rest of an upload, with the asset's id.
  unfoldable pub record_upload : ℕ → String → Upload → List ℕ → Fields → String → Step Fields
  unfolding add_to_album remember
  record_upload now created_at u bytes payload asset_id = do
    added ← add_to_album u.album_id asset_id
    remembered ←
        remember now u.path
          (record {
            asset_id = asset_id;
            filename = u.filename;
            content_type = some (or_octet_stream u.content_type);
            size = some (pos (length bytes));
          })
          created_at
    done payload

  unfoldable pub register_upload : ℕ → String → Upload → List ℕ → Fields → Step Fields
  unfolding id_of record_upload
  register_upload now created_at u bytes payload = do
    asset_id ← give (id_of p payload)
    record_upload now created_at u bytes payload asset_id

  -- `ImmichProvider.upload_asset`
  unfoldable pub upload_staged : ℕ → String → Upload → List ℕ → Step Fields
  unfolding client send register_upload
  upload_staged now created_at u bytes = do
    key ← give (client env)
    payload ← send platform (upload_asset u.filename u.content_type bytes)
    register_upload now created_at u bytes payload

  -- The body of `end_write` before its `finally`.
  unfoldable pub upload_or_raise : ℕ → String → Upload → Step Fields
  unfolding upload_staged
  upload_or_raise now created_at u w = elim u.temp [
    | none ↦ (raise insufficient_storage, w)
    | some bytes ↦ upload_staged now created_at u bytes w
  ]

  -- The deletion of the staged file; `unlinked` says whether it works. An `OSError` is only logged.
  abbrev pub cleaned_up : Bool → Upload → Upload
  cleaned_up unlinked u = record u { temp = if unlinked then none else u.temp }

  -- `finally`, after the outcome.
  unfoldable pub finish : Bool → Upload → Result Fields × World → Result Bool × Upload × World
  finish unlinked u (ok payload, w) =
      (ok true, record (cleaned_up unlinked u) { uploaded_payload = some payload }, w)
  finish unlinked u (raise e, w) = (raise e, cleaned_up unlinked u, w)

  unfoldable pub end_write :
      ℕ → String → Bool → Bool → Upload → World → Result Bool × Upload × World
  unfolding upload_or_raise finish
  end_write now created_at unlinked with_errors u w =
      if with_errors
      then (ok true, cleaned_up unlinked u, w)
      else finish unlinked u (upload_or_raise now created_at u w)

  -- `create_empty_resource` of each collection class; a class that has none inherits the refusal.
  unfoldable pub create_empty_resource : Resource → String → Result Resource
  unfolding is_supported_media_upload_name
  create_empty_resource (root path) name =
      if is_macos_metadata_file name
      then ok (macos_metadata (child_path "" name))
      else if not (write_allowed p "rootUploads" true)
      then raise forbidden
      else if not (is_supported_media_upload_name platform name)
      then raise forbidden
      else ok (upload (child_path "" name) name none)
  create_empty_resource (albums_root path) name =
      if is_macos_metadata_file name
      then ok (macos_metadata (child_path path name))
      else raise forbidden
  create_empty_resource (album path e) name =
      if is_macos_metadata_file name
      then ok (macos_metadata (child_path path name))
      else if not (write_allowed p "albumUploads" true)
      then raise forbidden
      else if not (is_supported_media_upload_name platform name)
      then raise forbidden
      else ok (upload (child_path path name) name (some (album_id p e)))
  create_empty_resource _ name = raise forbidden

  pub create_collection : Resource → String → Step Fields
  unfolding create_album_step
  create_collection (albums_root path) name =
      if str_eq name readme_filename || is_macos_metadata_file name
      then give (raise forbidden)
      else if not (write_allowed p "albumCreate" true)
      then give (raise forbidden)
      else create_album_step name
  create_collection _ name = give (raise forbidden)

  -- `remove_asset_from_album`; the asset's id is read before the client is made.
  pub remove_asset : String → Fields → Step Bool
  unfolding client send id_of
  remove_asset album_id a = do
    asset_id ← give (id_of p a)
    key ← give (client env)
    answer ← send platform (remove_asset_from_album album_id asset_id)
    done true

  -- `handle_delete`: refused by every class but `AssetResource` and the two that accept writes,
  -- which keep WsgiDAV's `False`, "not handled".
  unfoldable pub handle_delete : Resource → Step Bool
  unfolding remove_asset
  handle_delete (asset path a none) = give (raise forbidden)
  handle_delete (asset path a (some album_id)) =
      if not (write_allowed p "albumMembershipDelete" true)
      then give (raise forbidden)
      else remove_asset album_id a
  handle_delete (macos_metadata path) = done false
  handle_delete (upload path name album_id) = done false
  handle_delete _ = give (raise forbidden)
