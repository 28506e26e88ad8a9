-- ===== src/Provider/Resolve.antt =====
-- src/immich_bridge/webdav_provider.py, `get_resource_inst`: from a path to a resource.
pub mod Laws
pub mod Receipts
use immich_bridge.Prelude.{
  ℕ, String, Bool, not, ◌&&◌, ◌||◌, Option, none, some, List, [], ◌∷◌, take, elem, find_first,
  if◌then◌else◌, str_eq,
}
use immich_bridge.Json.{Fields, get}
use immich_bridge.Cache.{InMemoryCache}
use immich_bridge.FsModel.{DateRange, HourRange, date_range_from_parts, hour_range_from_parts}
use immich_bridge.Paths.{normalize, path_parts}
use immich_bridge.Provider.{
  Result, ok, raise, ◌>>=◌, run_fs, AlbumEntry, album_id, in_album, in_view, Filesystem, Resource,
  readme, root, albums_root, views_root, well_known, diagnostics, macos_metadata, album, date_root,
  saved_view, Environ, Provider,
}
use immich_bridge.Provider.Settings.{
  root_collection_names, should_split_album, filesystem, upload_receipt_resource,
}
use immich_bridge.Provider.Views.{saved_view_by_name, filters_of, text_or}
use immich_bridge.Provider.Kinds.{Kind, album_kind, date_kind, view_kind, asset_of}
use immich_bridge.Provider.Names.{
  is_nil, is_only, is_virtual_readme_path, is_macos_below, readme_content,
}

module _ (fs : Filesystem) (path : String) (k : Kind) where
  -- A name below a day: an hour, or a file of a day that is not split.
  pub resolve_in_day : DateRange → Option HourRange → String → Result (Option Resource)
  unfolding asset_of
  resolve_in_day r none name = do
    assets ← run_fs (fs.list_date_assets k.source r)
    ok (asset_of path k name assets)
  resolve_in_day r (some h) name = do
    split ← run_fs (fs.should_split_day k.source r)
    if split
        then ok (some (k.hours path h))
        else (do assets ← run_fs (fs.list_date_assets k.source r); ok (asset_of path k name assets))

  -- A name below an hour.
  pub resolve_in_hour : DateRange → Option HourRange → String → Result (Option Resource)
  unfolding asset_of
  resolve_in_hour r none name = ok none
  resolve_in_hour r (some h) name = do
    split ← run_fs (fs.should_split_day k.source r)
    if split
        then (do assets ← run_fs (fs.list_hour_assets k.source h); ok (asset_of path k name assets))
        else ok none

  -- The parts below the collection, of a range that is not empty.
  unfoldable pub resolve_in_range : DateRange → List String → Result (Option Resource)
  unfolding resolve_in_day resolve_in_hour
  resolve_in_range r [] = ok none
  resolve_in_range r (y ∷ []) = ok (some (k.bucket path r))
  resolve_in_range r (y ∷ m ∷ []) = ok (some (k.bucket path r))
  resolve_in_range r (y ∷ m ∷ d ∷ []) = ok (some (k.bucket path r))
  resolve_in_range r (y ∷ m ∷ d ∷ h ∷ []) =
      resolve_in_day r (hour_range_from_parts (k.collection ∷ y ∷ m ∷ d ∷ h ∷ [])) h
  resolve_in_range r (y ∷ m ∷ d ∷ h ∷ name ∷ []) =
      resolve_in_hour r (hour_range_from_parts (k.collection ∷ y ∷ m ∷ d ∷ h ∷ [])) name
  resolve_in_range r _ = ok none

  unfoldable pub resolve_checked : Option DateRange → List String → Result (Option Resource)
  unfolding resolve_in_range
  resolve_checked none parts = ok none
  resolve_checked (some r) parts = do
    nonempty ← run_fs (fs.range_has_assets k.source r)
    if nonempty then resolve_in_range r parts else ok none

  -- The date parts of a path below its collection.
  unfoldable pub resolve_date_parts : List String → Result (Option Resource)
  unfolding resolve_checked
  resolve_date_parts parts =
      resolve_checked (date_range_from_parts (k.collection ∷ take 3 parts)) parts

module _ (p : Provider) (env : Environ) (path : String) where
  -- The parts below an album.
  unfoldable pub resolve_in_album : Filesystem → AlbumEntry → List String → Result (Option Resource)
  unfolding album_kind asset_of resolve_date_parts
  resolve_in_album fs e [] = ok (some (album path e))
  resolve_in_album fs e (name ∷ rest) =
      if should_split_album p e
      then resolve_date_parts fs path (album_kind p e) (name ∷ rest)
      else if is_nil rest
      then (do
        assets ← run_fs (fs.list_assets (in_album (album_id p e)))
        ok (asset_of path (album_kind p e) name assets))
      else ok none

  pub resolve_album_named : Filesystem → List String → Option AlbumEntry → Result (Option Resource)
  unfolding resolve_in_album
  resolve_album_named fs rest none = ok none
  resolve_album_named fs rest (some e) = resolve_in_album fs e rest

  -- `_resolve_albums`, at the parts below `Albums`
  unfoldable pub resolve_albums : List String → Result (Option Resource)
  unfolding resolve_album_named
  resolve_albums [] = ok (some (albums_root path))
  resolve_albums (name ∷ rest) = do
    fs ← filesystem p env
    entries ← run_fs fs.albums
    resolve_album_named fs rest (find_first (λ e. str_eq e.name name) entries)

  -- `_resolve_date_view`, at the parts below `Timeline` or `Favorites`
  unfoldable pub resolve_date_view : String → Bool → List String → Result (Option Resource)
  unfolding date_kind resolve_date_parts
  resolve_date_view view_name is_favorite [] = ok (some (date_root path view_name is_favorite))
  resolve_date_view view_name is_favorite (y ∷ rest) = do
    fs ← filesystem p env
    resolve_date_parts fs path (date_kind view_name is_favorite) (y ∷ rest)

  -- A flat view has files only.
  pub resolve_flat_view : Fields → List String → Result (Option Resource)
  unfolding asset_of view_kind
  resolve_flat_view view (name ∷ []) = do
    fs ← filesystem p env
    assets ← run_fs (fs.list_assets (in_view (filters_of view)))
    ok (asset_of path (view_kind view) name assets)
  resolve_flat_view view _ = ok none

  -- A view that is not flat; the filesystem is asked only for parts that are a date.
  pub resolve_bucket_view : Fields → List String → Option DateRange → Result (Option Resource)
  unfolding view_kind resolve_checked
  resolve_bucket_view view parts none = ok none
  resolve_bucket_view view parts (some r) = do
    fs ← filesystem p env
    resolve_checked fs path (view_kind view) (some r) parts

  pub resolve_view : List String → Option Fields → Result (Option Resource)
  unfolding resolve_flat_view resolve_bucket_view
  resolve_view rest none = ok none
  resolve_view [] (some view) = ok (some (saved_view path view))
  resolve_view (name ∷ rest) (some view) =
      if str_eq (text_or p (get view "layout") "date_buckets") "flat"
      then resolve_flat_view view (name ∷ rest)
      else resolve_bucket_view view (name ∷ rest)
          (date_range_from_parts ("View" ∷ take 3 (name ∷ rest)))

  -- `_resolve_saved_view`, at the parts below `Views`
  unfoldable pub resolve_saved_view : List String → Result (Option Resource)
  unfolding resolve_view
  resolve_saved_view [] = ok (some (views_root path))
  resolve_saved_view (name ∷ rest) = resolve_view rest (saved_view_by_name p name)

  -- `resource or self._upload_receipt_resource(...)`
  unfoldable pub or_receipt :
      ℕ → InMemoryCache → Result (Option Resource) → Result (Option Resource) × InMemoryCache
  or_receipt now cache (raise e) = (raise e, cache)
  or_receipt now cache (ok (some r)) = (ok (some r), cache)
  or_receipt now cache (ok none) =
      let (receipt, cache') = upload_receipt_resource p now path env cache in (ok receipt, cache')

  -- The dispatch on the first part.
  unfoldable pub resolve_first :
      ℕ → InMemoryCache → String → List String → Result (Option Resource) × InMemoryCache
  unfolding resolve_albums resolve_date_view resolve_saved_view or_receipt
  resolve_first now cache first rest =
      if elem first ("Albums" ∷ "Timeline" ∷ "Favorites" ∷ "Views" ∷ [])
        && not (elem first (root_collection_names p))
      then (ok none, cache)
      else if str_eq first "Albums"
      then or_receipt now cache (resolve_albums rest)
      else if str_eq first "Timeline" || str_eq first "Favorites"
      then or_receipt now cache (resolve_date_view first (str_eq first "Favorites") rest)
      else if str_eq first "Views"
      then (resolve_saved_view rest, cache)
      else if str_eq first ".well-known" && is_nil rest
      then (ok (some (well_known path)), cache)
      else if str_eq first ".well-known" && is_only "immich-bridge.json" rest
      then (ok (some (diagnostics path)), cache)
      else or_receipt now cache (ok none)

  unfoldable pub resolve_parts :
      ℕ → InMemoryCache → List String → Result (Option Resource) × InMemoryCache
  unfolding readme_content is_virtual_readme_path is_macos_below resolve_first
  resolve_parts now cache [] = (ok (some (root path)), cache)
  resolve_parts now cache (first ∷ rest) =
      if is_virtual_readme_path (first ∷ rest)
      then (ok (some (readme path (readme_content (first ∷ rest)))), cache)
      else if is_macos_below rest
      then (ok (some (macos_metadata path)), cache)
      else resolve_first now cache first rest

unfoldable pub get_resource_inst :
    Provider → Environ → ℕ → String → InMemoryCache → Result (Option Resource) × InMemoryCache
unfolding resolve_parts
get_resource_inst p env now path cache =
    resolve_parts p env (normalize path) now cache (path_parts (normalize path))
