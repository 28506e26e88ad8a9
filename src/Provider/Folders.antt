-- ===== src/Provider/Folders.antt =====
-- src/immich_bridge/webdav_provider.py: what the collection classes with date folders have in common.
pub mod Listed
use immich_bridge.Prelude.{
  ℕ, String, Bool, ◌||◌, Option, none, some, List, [], ◌∷◌, ◌++◌, map, ◌==◌, leb, length, drop,
  find_first, elem, if◌then◌else◌, str_eq,
}
use immich_bridge.Json.{Fields, get, is_text}
use immich_bridge.Dict.{Dict}
use immich_bridge.FsModel.{DateRange, HourRange, date_range_from_parts, hour_range_from_parts}
use immich_bridge.Paths.{path_parts, child_path}
use immich_bridge.Provider.{
  Result, ok, ◌>>=◌, run_fs, AlbumEntry, Asset, in_view, Source, year, month, day, Filesystem,
  Resource, readme, root, albums_root, views_root, well_known, diagnostics, album,
  album_date_bucket, album_hour_bucket, date_root, date_bucket, hour_bucket, saved_view,
  saved_view_date_bucket, saved_view_hour_bucket, Environ, Provider, text_of,
}
use mathlib.Core.Option
use immich_bridge.Provider.Settings.{root_collection_names, should_split_album, filesystem}
use immich_bridge.Provider.Views.{
  saved_view_entries, saved_view_by_name, saved_view_by_id, filters_of, text_or,
}
use immich_bridge.Provider.Kinds.{Kind, album_kind, date_kind, view_kind, asset_of}
use immich_bridge.Provider.Names.{readme_filename, readme_content}

-- `list(d.keys())`
abbrev pub keys {ℓ} : {V : Type ℓ} → Dict V → List String
keys [] = []
keys ((k, v) ∷ d) = k ∷ keys d

-- `["View", *parts[2:]] if len(parts) >= 2 else parts`
abbrev pub view_parts : List String → List String
view_parts parts = if leb 2 (length parts) then "View" ∷ drop 2 parts else parts

-- The view that a resource was made for, as it is now: `_view` of the three saved view classes.
unfoldable pub current_view : Provider → Fields → Option Fields
current_view p view = elim (saved_view_by_id p (text_of p (get view "id"))) [
  | none ↦ none
  | some now ↦
      if is_text (get now "davName")
        (text_or p (get view "davName") (text_or p (get view "name") "View"))
      then some now
      else none
]

unfoldable pub current_bucket_view : Provider → Fields → Option Fields
unfolding current_view
current_bucket_view p view = elim (current_view p view) [
  | none ↦ none
  | some now ↦ if is_text (get now "layout") "flat" then none else some now
]

module _ (fs : Filesystem) (k : Kind) where
  unfoldable pub asset_names : Result (Dict Asset) → Result (List String)
  asset_names assets = do d ← assets; ok (keys d)

  unfoldable pub asset_member : String → String → Result (Dict Asset) → Result (Option Resource)
  unfolding asset_of
  asset_member path name assets = do d ← assets; ok (asset_of (child_path path name) k name d)

  -- The names below a day that is split into hours, or is not.
  unfoldable pub day_names : DateRange → Bool → Result (List String)
  unfolding asset_names
  day_names r split =
      if split
      then run_fs (fs.list_hour_buckets k.source r)
      else asset_names (run_fs (fs.list_date_assets k.source r))

  -- The names below a date bucket whose path has `depth` parts, the collection's counted.
  unfoldable pub bucket_names : ℕ → DateRange → Result (List String)
  unfolding day_names
  bucket_names depth r =
      if depth == 2
      then run_fs (fs.list_date_buckets k.source (some r) month)
      else if depth == 3
      then run_fs (fs.list_date_buckets k.source (some r) day)
      else run_fs (fs.should_split_day k.source r) >>= day_names r

-- A bucket, if its name is a date and listed.
unfoldable pub listed_bucket {ℓ} :
    {R : Type ℓ}
    → String
    → Option R
    → (R → Resource)
    → Result (List String)
    → Result (Option Resource)
listed_bucket name none f names = ok none
listed_bucket name (some r) f names = do ns ← names; ok (if elem name ns then some (f r) else none)

-- A member below a day that is split into hours, or is not.
unfoldable pub day_member :
    Kind
    → Filesystem
    → Result (List String)
    → String
    → List String
    → DateRange
    → String
    → Bool
    → Result (Option Resource)
unfolding listed_bucket asset_member
day_member k fs names path parts r name split =
    if split
    then listed_bucket name (hour_range_from_parts (parts ++ name ∷ []))
        (k.hours (child_path path name)) names
    else asset_member fs k path name (run_fs (fs.list_date_assets k.source r))

-- A member of a date bucket at `path`, whose date parts are `parts` and whose members have `names`.
unfoldable pub bucket_member :
    Result Filesystem
    → Kind
    → Result (List String)
    → String
    → List String
    → DateRange
    → String
    → Result (Option Resource)
unfolding listed_bucket day_member
bucket_member access k names path parts r name =
    if leb (length (parts ++ name ∷ [])) 4
    then listed_bucket name (date_range_from_parts (parts ++ name ∷ []))
        (k.bucket (child_path path name)) names
    else (do
      fs ← access
      split ← run_fs (fs.should_split_day k.source r)
      day_member k fs names path parts r name split)
