-- ===== src/Service/Operations.antt =====
-- src/immich_bridge/fs_service.py as src/immich_bridge/webdav_provider.py uses it: the methods by the
-- names that the provider's `Filesystem` gives them, and the answers of a session.
use immich_bridge.Prelude.{String, Bool, Option, List}
use immich_bridge.Json.{Fields}
use immich_bridge.Dict.{Dict}
use immich_bridge.FsModel.{DateRange, HourRange}
use immich_bridge.Provider.{
  FsResult, AlbumEntry, Asset, Source, date_view, in_album, in_view, Level, Filesystem,
}
use immich_bridge.Provider
use immich_bridge.Service.{
  Answer, found, api_error, truncated, other_error, unfinished, ImmichFilesystem, Session, Run,
}
use immich_bridge.Service.Buckets.{
  albums, date_range_has_assets, album_date_range_has_assets, view_date_range_has_assets,
  should_split_day, should_split_album_day, should_split_view_day, list_date_buckets,
  list_album_date_buckets, list_view_date_buckets, list_hour_buckets, list_album_hour_buckets,
  list_view_hour_buckets,
}
use immich_bridge.Service.Folders.{
  list_date_assets, list_album_date_assets, list_view_date_assets, list_hour_assets,
  list_album_hour_assets, list_view_hour_assets, list_album_assets, list_view_assets,
}

pub data Operation : Type 0 → Type 1 where
  albums_op : Operation (List AlbumEntry)
  range_has_assets_op : Source → DateRange → Operation Bool
  should_split_op : Source → DateRange → Operation Bool
  date_buckets_op : Source → Option DateRange → Level → Operation (List String)
  hour_buckets_op : Source → DateRange → Operation (List String)
  date_assets_op : Source → DateRange → Operation (Dict Asset)
  hour_assets_op : Source → HourRange → Operation (Dict Asset)
  album_assets_op : String → Operation (Dict Asset)
  view_assets_op : Fields → Operation (Dict Asset)

-- The call of `ImmichFilesystem` that the provider's `ImmichProvider` methods make for a source.
unfoldable pub perform : ImmichFilesystem → {A : Type 0} → Operation A → Run A
unfolding albums date_range_has_assets album_date_range_has_assets view_date_range_has_assets
    should_split_day should_split_album_day should_split_view_day list_date_buckets
    list_album_date_buckets list_view_date_buckets list_hour_buckets list_album_hour_buckets
    list_view_hour_buckets list_date_assets list_album_date_assets list_view_date_assets
    list_hour_assets list_album_hour_assets list_view_hour_assets list_album_assets list_view_assets
perform fs albums_op = albums fs
perform fs (range_has_assets_op (date_view favorite) r) = date_range_has_assets fs favorite r
perform fs (range_has_assets_op (in_album id) r) = album_date_range_has_assets fs id r
perform fs (range_has_assets_op (in_view filters) r) = view_date_range_has_assets fs filters r
perform fs (should_split_op (date_view favorite) r) = should_split_day fs favorite r
perform fs (should_split_op (in_album id) r) = should_split_album_day fs id r
perform fs (should_split_op (in_view filters) r) = should_split_view_day fs filters r
perform fs (date_buckets_op (date_view favorite) r level) = list_date_buckets fs favorite r level
perform fs (date_buckets_op (in_album id) r level) = list_album_date_buckets fs id r level
perform fs (date_buckets_op (in_view filters) r level) = list_view_date_buckets fs filters r level
perform fs (hour_buckets_op (date_view favorite) r) = list_hour_buckets fs favorite r
perform fs (hour_buckets_op (in_album id) r) = list_album_hour_buckets fs id r
perform fs (hour_buckets_op (in_view filters) r) = list_view_hour_buckets fs filters r
perform fs (date_assets_op (date_view favorite) r) = list_date_assets fs favorite r
perform fs (date_assets_op (in_album id) r) = list_album_date_assets fs id r
perform fs (date_assets_op (in_view filters) r) = list_view_date_assets fs filters r
perform fs (hour_assets_op (date_view favorite) r) = list_hour_assets fs favorite r
perform fs (hour_assets_op (in_album id) r) = list_album_hour_assets fs id r
perform fs (hour_assets_op (in_view filters) r) = list_view_hour_assets fs filters r
perform fs (album_assets_op id) = list_album_assets fs id
perform fs (view_assets_op filters) = list_view_assets fs filters

-- An answer as the provider takes it; a call that does not end gives it nothing.
abbrev pub fs_result {ℓ} : {A : Type ℓ} → Answer A → FsResult A
fs_result (found a) = Provider.found a
fs_result (api_error status) = Provider.api_error status
fs_result truncated = Provider.truncated
fs_result other_error = Provider.failed
fs_result unfinished = Provider.failed

-- No method lists all assets of the timeline.
abbrev all_assets_of : ImmichFilesystem → Session → Source → FsResult (Dict Asset)
all_assets_of fs s (date_view favorite) = Provider.failed
all_assets_of fs s (in_album id) = fs_result (perform fs (album_assets_op id) s).0
all_assets_of fs s (in_view filters) = fs_result (perform fs (view_assets_op filters) s).0

-- What a session answers, as the provider's `Filesystem`.
unfoldable pub snapshot : ImmichFilesystem → Session → Filesystem
unfolding perform
snapshot fs s = record {
  albums = fs_result (perform fs albums_op s).0;
  range_has_assets = λ source r. fs_result (perform fs (range_has_assets_op source r) s).0;
  should_split_day = λ source r. fs_result (perform fs (should_split_op source r) s).0;
  list_date_buckets = λ source r level. fs_result (perform fs (date_buckets_op source r level) s).0;
  list_hour_buckets = λ source r. fs_result (perform fs (hour_buckets_op source r) s).0;
  list_assets = all_assets_of fs s;
  list_date_assets = λ source r. fs_result (perform fs (date_assets_op source r) s).0;
  list_hour_assets = λ source r. fs_result (perform fs (hour_assets_op source r) s).0;
}

-- The field of the provider's `Filesystem` that an operation reads.
unfoldable pub answer_of : Filesystem → {A : Type 0} → Operation A → FsResult A
answer_of f albums_op = f.albums
answer_of f (range_has_assets_op source r) = f.range_has_assets source r
answer_of f (should_split_op source r) = f.should_split_day source r
answer_of f (date_buckets_op source r level) = f.list_date_buckets source r level
answer_of f (hour_buckets_op source r) = f.list_hour_buckets source r
answer_of f (date_assets_op source r) = f.list_date_assets source r
answer_of f (hour_assets_op source r) = f.list_hour_assets source r
answer_of f (album_assets_op id) = f.list_assets (in_album id)
answer_of f (view_assets_op filters) = f.list_assets (in_view filters)
