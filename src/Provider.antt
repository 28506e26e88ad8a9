-- ===== src/Provider.antt =====
-- src/immich_bridge/webdav_provider.py: the resources of the mount, what the provider asks of the
-- filesystem service, and the errors. The operations are in the modules below.
mod Tests
pub mod Settings
pub mod Views
pub mod Kinds
pub mod Names
pub mod Resolve
pub mod Folders
pub mod Members
pub mod ByteRanges
pub mod Requests
pub mod Staging
pub mod Writes
pub mod Files
use immich_bridge.Prelude.{
  ℕ, String, Bool, true, false, Option, none, some, List, [], ◌∷◌, ◌==◌, ◌||◌, if◌then◌else◌,
  str_eq,
}
use immich_bridge.Json.{ℤ, Value, Fields, null, bool, str, get}
use immich_bridge.Dict.{Dict}
use immich_bridge.FsModel.{DateRange, HourRange}

-- The HTTP statuses of the `DAVError`s that are raised, and that of another exception.
pub data DavError : Type 0 where
  not_found forbidden gateway_timeout bad_gateway insufficient_storage internal_error : DavError

pub data Result {ℓ} (A : Type ℓ) : Type ℓ where
  ok : A → Result A
  raise : DavError → Result A

infixl 5 ◌>>=◌
abbrev pub ◌>>=◌ {ℓ κ} : {A : Type ℓ} {B : Type κ} → Result A → (A → Result B) → Result B
ok a >>= f = f a
raise e >>= f = raise e

-- What a call of the filesystem service gives: a value, an `ImmichApiError` with its status, a
-- `SearchTruncatedError`, or another exception, which `_run_fs` lets pass.
pub data FsResult {ℓ} (A : Type ℓ) : Type ℓ where
  found : A → FsResult A
  api_error : Option ℕ → FsResult A
  truncated failed : FsResult A

-- `_immich_error_to_dav`
pub immich_error_to_dav : Option ℕ → DavError
immich_error_to_dav none = gateway_timeout
immich_error_to_dav (some status) =
    if status == 404
    then not_found
    else if (status == 401) || (status == 403)
    then forbidden
    else bad_gateway

-- `_run_fs`
unfoldable pub run_fs {ℓ} : {A : Type ℓ} → FsResult A → Result A
unfolding immich_error_to_dav
run_fs (found a) = ok a
run_fs (api_error status) = raise (immich_error_to_dav status)
run_fs truncated = raise insufficient_storage
run_fs failed = raise internal_error

pub record AlbumEntry : Type 0 where
  pub name : String
  pub album : Fields

abbrev pub Asset : Type 0
Asset = Fields

-- Where the assets of a folder come from: the timeline or the favorites, an album, a saved view.
pub data Source : Type 0 where
  date_view : Bool → Source
  in_album : String → Source
  in_view : Fields → Source

pub data Level : Type 0 where
  year month day : Level

-- The methods of `ImmichFilesystem` that the provider calls, over one snapshot of the library:
-- within a request its answers are memoized. The methods for the three sources are one here.
-- `resolve_..._asset` is `list_..._assets` and `dict.get`.
pub record Filesystem : Type 0 where
  pub albums : FsResult (List AlbumEntry)
  pub range_has_assets : Source → DateRange → FsResult Bool
  pub should_split_day : Source → DateRange → FsResult Bool
  pub list_date_buckets : Source → Option DateRange → Level → FsResult (List String)
  pub list_hour_buckets : Source → DateRange → FsResult (List String)
  pub list_assets : Source → FsResult (Dict Asset)
  pub list_date_assets : Source → DateRange → FsResult (Dict Asset)
  pub list_hour_assets : Source → HourRange → FsResult (Dict Asset)

-- The README texts, by the directory that they are about.
pub data Readme : Type 0 where
  about_root about_albums about_timeline about_views about_favorites : Readme

-- An upload receipt, as the cache holds it.
pub record Receipt : Type 0 where
  pub asset_id : String
  pub filename : String
  pub content_type : Option String
  pub size : Option ℤ

-- The resource classes, each with its path and what its constructor keeps.
pub data Resource : Type 0 where
  readme : String → Readme → Resource
  root albums_root views_root well_known diagnostics macos_metadata : String → Resource
  album : String → AlbumEntry → Resource
  album_date_bucket : String → AlbumEntry → DateRange → Resource
  album_hour_bucket : String → AlbumEntry → HourRange → Resource
  date_root : String → String → Bool → Resource
  date_bucket : String → String → DateRange → Bool → Resource
  hour_bucket : String → HourRange → Bool → Resource
  saved_view : String → Fields → Resource
  saved_view_date_bucket : String → Fields → DateRange → Resource
  saved_view_hour_bucket : String → Fields → HourRange → Resource
  asset : String → Asset → Option String → Resource
  upload : String → String → Option String → Resource
  upload_receipt : String → Receipt → Resource

-- What a request carries.
pub record Environ : Type 0 where
  pub api_key : Option String
  pub user_id : Value

-- The provider: its settings, the stored settings and views of `AdminStore`, and what it takes from
-- outside: SHA-256, Unicode case folding, `str` of a value that is no text, and the filesystem
-- service for an API key, a user scope and the threshold for splitting a day.
pub record Provider : Type 0 where
  pub connect : String → String → ℤ → Filesystem
  pub album_folder_split_threshold : ℕ
  pub day_folder_split_threshold : ℕ
  pub upload_receipt_ttl_seconds : ℕ
  pub mount : Fields
  pub write_policy : Fields
  pub enabled_views : List Fields
  pub sha256 : String → String
  pub casefold : String → String
  pub other_str : Value → String

-- `str(value)`
unfoldable pub text_of : Provider → Value → String
text_of p (str s) = s
text_of p null = "None"
text_of p (bool true) = "True"
text_of p (bool false) = "False"
text_of p v = p.other_str v

-- `AlbumEntry.album_id`
pub album_id : Provider → AlbumEntry → String
unfolding text_of
album_id p e = text_of p (get e.album "id")

-- `environ.get("immich.api_key")`, if it is not empty
abbrev pub present_key : Option String → Option String
present_key none = none
present_key (some k) = if str_eq k "" then none else some k
