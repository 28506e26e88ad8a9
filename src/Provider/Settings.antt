-- ===== src/Provider/Settings.antt =====
-- src/immich_bridge/webdav_provider.py: the stored settings, the client of a request and the upload
-- receipts.
pub mod Receipts
use immich_bridge.Prelude.{
  ℕ, ◌+◌, String, Bool, true, false, not, ◌&&◌, Option, none, some, List, [], ◌∷◌, ◌++◌, ◌==◌, ltb,
  leb, find_first, if◌then◌else◌, str_eq, concat,
}
use immich_bridge.Json.{
  ℤ, pos, negsuc, Value, Fields, null, bool, int, str, arr, obj, end, field, find, get, truthy,
  as_text, as_int,
}
use immich_bridge.Text.{codes, parse_int}
use immich_bridge.Cache.{InMemoryCache, get_json, set_json}
use immich_bridge.Provider.{
  DavError, forbidden, Result, ok, raise, ◌>>=◌, Filesystem, AlbumEntry, Environ, Provider, text_of,
  present_key, Resource, Receipt, upload_receipt, run_fs,
}
use mathlib.Core.Option

-- `d.get(key, default)` as a truth test
unfoldable pub flag : Fields → String → Bool → Bool
flag d key default = elim (find d key) [ none ↦ default | some v ↦ truthy v ]

abbrev when : Bool → String → List String
when b name = if b then name ∷ [] else []

unfoldable pub root_collection_names : Provider → List String
unfolding flag
root_collection_names p =
    when (flag p.mount "albumsEnabled" true) "Albums"
    ++ (when (flag p.mount "timelineEnabled" true) "Timeline"
        ++ (when (flag p.mount "favoritesEnabled" true) "Favorites"
            ++ (when (flag p.mount "viewsEnabled" true) "Views" ++ ".well-known" ∷ [])))

-- `bool(value) if isinstance(value, bool) else default`
unfoldable pub bool_or : Bool → Value → Bool
bool_or default (bool b) = b
bool_or default _ = default

unfoldable pub write_allowed : Provider → String → Bool → Bool
unfolding bool_or
write_allowed p key default = bool_or default (get p.write_policy key)

-- `int(value)`; `none` is a `TypeError` or a `ValueError`
unfoldable pub int_of : Value → Option ℤ
int_of (int n) = some n
int_of (bool b) = as_int (bool b)
int_of (str s) = parse_int (codes s)
int_of _ = none

abbrev pub is_number : Value → ℕ → Bool
is_number (int (pos n)) m = n == m
is_number _ m = false

-- A stored threshold; the default value stands for "not set".
unfoldable pub configured_threshold : Value → ℕ → ℕ → ℤ
unfolding int_of
configured_threshold value default own =
    if is_number value default then pos own else Option.get_or (int_of value) (pos own)

unfoldable pub configured_album_folder_split_threshold : Provider → ℤ
unfolding configured_threshold
configured_album_folder_split_threshold p =
    configured_threshold (get p.mount "albumFolderSplitThreshold") 200
      p.album_folder_split_threshold

unfoldable pub configured_day_folder_split_threshold : Provider → ℤ
unfolding configured_threshold
configured_day_folder_split_threshold p =
    configured_threshold (get p.mount "dayFolderSplitThreshold") 1000 p.day_folder_split_threshold

-- `a > b`
unfoldable pub exceeds : ℤ → ℤ → Bool
exceeds (pos a) (pos b) = ltb b a
exceeds (pos a) (negsuc b) = true
exceeds (negsuc a) (pos b) = false
exceeds (negsuc a) (negsuc b) = ltb a b

-- `value or 0`
abbrev or_zero : Value → Value
or_zero v = if truthy v then v else int (pos 0)

unfoldable pub should_split_album : Provider → AlbumEntry → Bool
unfolding exceeds configured_album_folder_split_threshold int_of
should_split_album p e = elim (int_of (or_zero (get e.album "assetCount"))) [
  | none ↦ false
  | some count ↦ exceeds count (configured_album_folder_split_threshold p)
]

-- `environ.get("immich.user_id") or sha256(str(api_key))`
abbrev scope_of : Provider → Value → String → String
scope_of p user_id api_key = if truthy user_id then text_of p user_id else p.sha256 api_key

-- `_filesystem`, with the `_client` under it
unfoldable pub filesystem : Provider → Environ → Result Filesystem
unfolding configured_day_folder_split_threshold text_of
filesystem p env = elim (present_key env.api_key) [
  | none ↦ raise forbidden
  | some api_key ↦
      ok (
        p.connect api_key (scope_of p env.user_id api_key)
          (configured_day_folder_split_threshold p))
]

unfoldable pub user_scope : Provider → Environ → Option String
unfolding text_of
user_scope p env =
    if truthy env.user_id
    then some (text_of p env.user_id)
    else Option.map p.sha256 (present_key env.api_key)

unfoldable pub receipt_key : Provider → String → Environ → Option String
receipt_key p path env =
    Option.map (λ scope. concat "dav-receipt:" (concat scope (concat ":" (p.sha256 path))))
      (user_scope p env)

abbrev text_value : Option String → Value
text_value none = null
text_value (some s) = str s

abbrev int_value : Option ℤ → Value
int_value none = null
int_value (some n) = int n

-- The dictionary that is stored; `created_at` is the ISO text of the clock.
pub receipt_dict : Receipt → String → Fields
receipt_dict r created_at = field "asset_id" (str r.asset_id) (
    field "filename" (str r.filename) (
      field "content_type" (text_value r.content_type)
        (field "size" (int_value r.size) (field "created_at" (str created_at) end))))

pub remember_upload_receipt :
    Provider → ℕ → String → Environ → Receipt → String → InMemoryCache → InMemoryCache
remember_upload_receipt p now path env r created_at cache = elim (receipt_key p path env) [
  | none ↦ cache
  | some key ↦
      if p.upload_receipt_ttl_seconds == 0
      then cache
      else set_json now key (receipt_dict r created_at) p.upload_receipt_ttl_seconds cache
]

pub receipt_of_dict : Fields → Option Receipt
receipt_of_dict d = elim (as_text (get d "asset_id")) [
  | none ↦ none
  | some asset_id ↦ elim (as_text (get d "filename")) [
    | none ↦ none
    | some filename ↦ some (record {
      asset_id = asset_id;
      filename = filename;
      content_type = as_text (get d "content_type");
      size = as_int (get d "size");
    })
  ]
]

-- An empty dictionary is no receipt.
pub receipt_of_cached : Option Fields → Option Receipt
unfolding receipt_of_dict
receipt_of_cached none = none
receipt_of_cached (some d) = if truthy (obj d) then receipt_of_dict d else none

pub upload_receipt_resource :
    Provider → ℕ → String → Environ → InMemoryCache → Option Resource × InMemoryCache
unfolding receipt_of_cached
upload_receipt_resource p now path env cache = elim (receipt_key p path env) [
  | none ↦ (none, cache)
  | some key ↦
      let (cached, cache') = get_json now key cache in
      (Option.map (upload_receipt path) (receipt_of_cached cached), cache')
]
