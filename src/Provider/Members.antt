-- ===== src/Provider/Members.antt =====
-- src/immich_bridge/webdav_provider.py: `get_member_names` and `get_member` of the collection classes.
pub mod Listed
pub mod Agree
use immich_bridge.Prelude.{
  ℕ, String, Bool, ◌||◌, Option, none, some, List, [], ◌∷◌, ◌++◌, map, ◌==◌, leb, length, drop,
  find_first, elem, if◌then◌else◌, str_eq,
}
use immich_bridge.Json.{Fields, get, is_text}
use immich_bridge.Dict.{Dict}
use immich_bridge.FsModel.{DateRange, HourRange, date_range_from_parts, hour_range_from_parts}
use immich_bridge.Paths.{path_parts, child_path}
use immich_bridge.Provider.{
  Result, ok, ◌>>=◌, run_fs, AlbumEntry, Asset, in_view, Source, year, month, day, Filesystem,
  Resource, readme, root, albums_root, views_root, well_known, diagnostics, album,
  album_date_bucket, album_hour_bucket, date_root, date_bucket, hour_bucket, saved_view,
  saved_view_date_bucket, saved_view_hour_bucket, Environ, Provider, text_of,
}
use mathlib.Core.Option
use immich_bridge.Provider.Settings.{root_collection_names, should_split_album, filesystem}
use immich_bridge.Provider.Views.{
  saved_view_entries, saved_view_by_name, saved_view_by_id, filters_of, text_or,
}
use immich_bridge.Provider.Kinds.{Kind, album_kind, date_kind, view_kind, asset_of}
use immich_bridge.Provider.Names.{readme_filename, readme_content}
use immich_bridge.Provider.Folders.{
  keys, view_parts, current_view, current_bucket_view, day_names, bucket_names, asset_names,
  asset_member, listed_bucket, day_member, bucket_member,
}

-- `["Album", *parts[2:]]`
abbrev pub album_parts : String → List String
album_parts path = "Album" ∷ drop 2 (path_parts path)

pub year_names : Filesystem → Source → Result (List String)
year_names fs source = run_fs (fs.list_date_buckets source none year)

abbrev pub entry_names : List AlbumEntry → List String
entry_names entries = map (λ (e : AlbumEntry). e.name) entries

abbrev pub with_readme : List String → List String
with_readme names = readme_filename ∷ names

module _ (p : Provider) (env : Environ) where
  -- The names below a saved view, given the view as it is now; none if it is gone.
  pub view_names : Option Fields → Result (List String)
  unfolding asset_names year_names view_kind
  view_names none = ok []
  view_names (some view) = do
    fs ← filesystem p env
    if is_text (get view "layout") "flat"
        then asset_names fs (view_kind view) (run_fs (fs.list_assets (view_kind view).source))
        else year_names fs (view_kind view).source

  pub view_bucket_names : String → DateRange → Option Fields → Result (List String)
  unfolding bucket_names view_kind
  view_bucket_names path r none = ok []
  view_bucket_names path r (some view) = do
    fs ← filesystem p env
    bucket_names fs (view_kind view) (length (view_parts (path_parts path))) r

  pub view_hour_names : HourRange → Option Fields → Result (List String)
  unfolding asset_names view_kind
  view_hour_names h none = ok []
  view_hour_names h (some view) = do
    fs ← filesystem p env
    asset_names fs (view_kind view) (run_fs (fs.list_hour_assets (view_kind view).source h))

  -- A file has no members.
  unfoldable pub get_member_names : Resource → Result (List String)
  unfolding bucket_names asset_names year_names album_kind date_kind view_names view_bucket_names
      view_hour_names
  get_member_names (root path) = ok (with_readme (root_collection_names p))
  get_member_names (albums_root path) = do
    fs ← filesystem p env
    entries ← run_fs fs.albums
    ok (with_readme (entry_names entries))
  get_member_names (album path e) = do
    fs ← filesystem p env
    if should_split_album p e
        then year_names fs (album_kind p e).source
        else asset_names fs (album_kind p e) (run_fs (fs.list_assets (album_kind p e).source))
  get_member_names (album_date_bucket path e r) = do
    fs ← filesystem p env
    bucket_names fs (album_kind p e) (length (album_parts path)) r
  get_member_names (album_hour_bucket path e h) = do
    fs ← filesystem p env
    asset_names fs (album_kind p e) (run_fs (fs.list_hour_assets (album_kind p e).source h))
  get_member_names (date_root path view_name is_favorite) = do
    fs ← filesystem p env
    years ← year_names fs (date_kind view_name is_favorite).source
    ok (with_readme years)
  get_member_names (date_bucket path view_name r is_favorite) = do
    fs ← filesystem p env
    bucket_names fs (date_kind view_name is_favorite) (length (path_parts path)) r
  get_member_names (hour_bucket path h is_favorite) = do
    fs ← filesystem p env
    asset_names fs (date_kind "" is_favorite)
        (run_fs (fs.list_hour_assets (date_kind "" is_favorite).source h))
  get_member_names (views_root path) =
      ok (with_readme (map (λ (v : Fields). text_of p (get v "davName")) (saved_view_entries p)))
  get_member_names (saved_view path view) = view_names (current_view p view)
  get_member_names (saved_view_date_bucket path view r) =
      view_bucket_names path r (current_bucket_view p view)
  get_member_names (saved_view_hour_bucket path view h) =
      view_hour_names h (current_bucket_view p view)
  get_member_names (well_known path) = ok ("immich-bridge.json" ∷ [])
  get_member_names _ = ok []

  pub root_member : String → Option Resource
  unfolding readme_content
  root_member name =
      if str_eq name readme_filename
      then some (readme (child_path "" name) (readme_content (name ∷ [])))
      else if str_eq name "Albums"
      then some (albums_root (child_path "" name))
      else if str_eq name "Timeline" || str_eq name "Favorites"
      then some (date_root (child_path "" name) name (str_eq name "Favorites"))
      else if str_eq name "Views"
      then some (views_root (child_path "" name))
      else if str_eq name ".well-known"
      then some (well_known (child_path "" name))
      else none

  pub album_named : String → String → List AlbumEntry → Option Resource
  album_named path name entries = elim (find_first (λ e. str_eq e.name name) entries) [
    | none ↦ none
    | some e ↦ some (album (child_path path name) e)
  ]

  -- A member of a saved view whose members have `names`, given the view as it is now.
  pub view_member :
      String → String → Result (List String) → Option Fields → Result (Option Resource)
  unfolding asset_member listed_bucket view_kind
  view_member path name names none = ok none
  view_member path name names (some view) =
      if is_text (get view "layout") "flat"
      then (do
        fs ← filesystem p env
        asset_member fs (view_kind view) path name
            (run_fs (fs.list_assets (view_kind view).source)))
      else listed_bucket name (date_range_from_parts ("View" ∷ name ∷ []))
          (saved_view_date_bucket (child_path path name) view) names

  pub view_bucket_member :
      String → DateRange → String → Result (List String) → Option Fields → Result (Option Resource)
  unfolding bucket_member view_kind
  view_bucket_member path r name names none = ok none
  view_bucket_member path r name names (some view) =
      bucket_member (filesystem p env) (view_kind view) names path (view_parts (path_parts path)) r
        name

  pub view_hour_member : String → HourRange → String → Option Fields → Result (Option Resource)
  unfolding asset_member view_kind
  view_hour_member path h name none = ok none
  view_hour_member path h name (some view) = do
    fs ← filesystem p env
    asset_member fs (view_kind view) path name
        (run_fs (fs.list_hour_assets (view_kind view).source h))

  -- A file has no members.
  unfoldable pub get_member : Resource → String → Result (Option Resource)
  unfolding root_member album_named bucket_member asset_member listed_bucket view_member
      view_bucket_member view_hour_member
  get_member (root path) name = ok (root_member name)
  get_member (albums_root path) name =
      if str_eq name readme_filename
      then ok (some (readme (child_path path name) (readme_content ("Albums" ∷ name ∷ []))))
      else (do
        fs ← filesystem p env
        entries ← run_fs fs.albums
        ok (album_named path name entries))
  get_member (album path e) name =
      if should_split_album p e
      then listed_bucket name (date_range_from_parts ("Album" ∷ name ∷ []))
          (album_date_bucket (child_path path name) e) (get_member_names (album path e))
      else (do
        fs ← filesystem p env
        asset_member fs (album_kind p e) path name
            (run_fs (fs.list_assets (album_kind p e).source)))
  get_member (album_date_bucket path e r) name =
      bucket_member (filesystem p env) (album_kind p e)
        (get_member_names (album_date_bucket path e r)) path (album_parts path) r name
  get_member (album_hour_bucket path e h) name = do
    fs ← filesystem p env
    asset_member fs (album_kind p e) path name
        (run_fs (fs.list_hour_assets (album_kind p e).source h))
  get_member (date_root path view_name is_favorite) name =
      if str_eq name readme_filename
      then ok (some (readme (child_path path name) (readme_content (view_name ∷ name ∷ []))))
      else listed_bucket name (date_range_from_parts (view_name ∷ name ∷ []))
          (λ r. date_bucket (child_path path name) view_name r is_favorite)
          (get_member_names (date_root path view_name is_favorite))
  get_member (date_bucket path view_name r is_favorite) name =
      bucket_member (filesystem p env) (date_kind view_name is_favorite)
        (get_member_names (date_bucket path view_name r is_favorite)) path (path_parts path) r name
  get_member (hour_bucket path h is_favorite) name = do
    fs ← filesystem p env
    asset_member fs (date_kind "" is_favorite) path name
        (run_fs (fs.list_hour_assets (date_kind "" is_favorite).source h))
  get_member (views_root path) name =
      if str_eq name readme_filename
      then ok (some (readme (child_path path name) (readme_content ("Views" ∷ name ∷ []))))
      else ok (Option.map (saved_view (child_path path name)) (saved_view_by_name p name))
  get_member (saved_view path view) name =
      view_member path name (get_member_names (saved_view path view)) (current_view p view)
  get_member (saved_view_date_bucket path view r) name =
      view_bucket_member path r name (get_member_names (saved_view_date_bucket path view r))
        (current_bucket_view p view)
  get_member (saved_view_hour_bucket path view h) name =
      view_hour_member path h name (current_bucket_view p view)
  get_member (well_known path) name =
      ok (
        if str_eq name "immich-bridge.json"
        then some (diagnostics (child_path path name))
        else none)
  get_member _ name = ok none
