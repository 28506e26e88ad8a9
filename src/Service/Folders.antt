-- ===== src/Service/Folders.antt =====
-- src/immich_bridge/fs_service.py: the methods that give the files of a folder.
use immich_bridge.Prelude.{String, Bool, true, Option}
use immich_bridge.Json.{Fields}
use immich_bridge.Dict.{Dict, lookup}
use immich_bridge.FsModel.{DateRange, HourRange}
use immich_bridge.Provider.{Asset, date_view, in_album}
use immich_bridge.Assets.{iso_boundary, start_iso, end_iso, asset_entries}
use immich_bridge.Service.{ImmichFilesystem, Run, ◌>>=◌, done, or_error}
use immich_bridge.Service.Filters.{
  view_search_filters, dated, undated, with_exif, ordered, with_date_bounds,
}
use immich_bridge.Service.Buckets.{search_all_assets}

module _ (fs : ImmichFilesystem) where
  -- The named assets of a search, oldest first and with their metadata.
  unfoldable pub entries_of : Fields → Run (Dict Asset)
  unfolding search_all_assets asset_entries
  entries_of filters = do
    assets ← search_all_assets fs (ordered "asc" (with_exif true filters))
    done (asset_entries fs.provider fs.formats assets)

  -- `.get(name)`
  unfoldable pub named : String → Run (Dict Asset) → Run (Option Asset)
  unfolding lookup
  named name folder = do entries ← folder; done (lookup name entries)

  unfoldable pub list_date_assets : Bool → DateRange → Run (Dict Asset)
  unfolding entries_of dated
  list_date_assets favorite r =
      entries_of (dated (date_view favorite) (iso_boundary r.start) (iso_boundary r.end))

  unfoldable pub resolve_date_asset : Bool → DateRange → String → Run (Option Asset)
  unfolding list_date_assets named
  resolve_date_asset favorite r name = named name (list_date_assets favorite r)

  unfoldable pub list_hour_assets : Bool → HourRange → Run (Dict Asset)
  unfolding entries_of dated
  list_hour_assets favorite r = do
    after_hour ← or_error (end_iso r)
    entries_of (dated (date_view favorite) (start_iso r) after_hour)

  unfoldable pub resolve_hour_asset : Bool → HourRange → String → Run (Option Asset)
  unfolding list_hour_assets named
  resolve_hour_asset favorite r name = named name (list_hour_assets favorite r)

  unfoldable pub list_album_assets : String → Run (Dict Asset)
  unfolding entries_of undated
  list_album_assets id = entries_of (undated (in_album id))

  unfoldable pub resolve_album_asset : String → String → Run (Option Asset)
  unfolding list_album_assets named
  resolve_album_asset id name = named name (list_album_assets id)

  unfoldable pub list_album_date_assets : String → DateRange → Run (Dict Asset)
  unfolding entries_of dated
  list_album_date_assets id r =
      entries_of (dated (in_album id) (iso_boundary r.start) (iso_boundary r.end))

  unfoldable pub resolve_album_date_asset : String → DateRange → String → Run (Option Asset)
  unfolding list_album_date_assets named
  resolve_album_date_asset id r name = named name (list_album_date_assets id r)

  unfoldable pub list_album_hour_assets : String → HourRange → Run (Dict Asset)
  unfolding entries_of dated
  list_album_hour_assets id r = do
    after_hour ← or_error (end_iso r)
    entries_of (dated (in_album id) (start_iso r) after_hour)

  unfoldable pub resolve_album_hour_asset : String → HourRange → String → Run (Option Asset)
  unfolding list_album_hour_assets named
  resolve_album_hour_asset id r name = named name (list_album_hour_assets id r)

  unfoldable pub list_view_assets : Fields → Run (Dict Asset)
  unfolding entries_of view_search_filters
  list_view_assets filters = entries_of (view_search_filters filters)

  unfoldable pub resolve_view_asset : Fields → String → Run (Option Asset)
  unfolding list_view_assets named
  resolve_view_asset filters name = named name (list_view_assets filters)

  unfoldable pub list_view_date_assets : Fields → DateRange → Run (Dict Asset)
  unfolding entries_of with_date_bounds view_search_filters
  list_view_date_assets filters r =
      entries_of
        (with_date_bounds (view_search_filters filters) (iso_boundary r.start) (iso_boundary r.end))

  unfoldable pub resolve_view_date_asset : Fields → DateRange → String → Run (Option Asset)
  unfolding list_view_date_assets named
  resolve_view_date_asset filters r name = named name (list_view_date_assets filters r)

  unfoldable pub list_view_hour_assets : Fields → HourRange → Run (Dict Asset)
  unfolding entries_of with_date_bounds view_search_filters
  list_view_hour_assets filters r = do
    after_hour ← or_error (end_iso r)
    entries_of (with_date_bounds (view_search_filters filters) (start_iso r) after_hour)

  unfoldable pub resolve_view_hour_asset : Fields → HourRange → String → Run (Option Asset)
  unfolding list_view_hour_assets named
  resolve_view_hour_asset filters r name = named name (list_view_hour_assets filters r)
