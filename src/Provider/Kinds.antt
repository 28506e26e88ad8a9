-- ===== src/Provider/Kinds.antt =====
-- src/immich_bridge/webdav_provider.py: what the date folders of albums, of the timeline and of saved
-- views have in common.
use immich_bridge.Prelude.{String, Bool, Option, none, some}
use immich_bridge.Json.{Fields}
use immich_bridge.Dict.{Dict, lookup}
use immich_bridge.FsModel.{DateRange, HourRange}
use immich_bridge.Provider.{
  AlbumEntry, album_id, Asset, Source, date_view, in_album, in_view, Resource, album_date_bucket,
  album_hour_bucket, date_bucket, hour_bucket, saved_view_date_bucket, saved_view_hour_bucket,
  asset, Provider,
}
use immich_bridge.Provider.Views.{filters_of}
use mathlib.Core.Option

-- What the three kinds of date folders differ in: where their assets are, the collection that
-- stands before the date parts, and the resources that stand for their buckets and files.
pub record Kind : Type 0 where
  pub source : Source
  pub collection : String
  pub bucket : String → DateRange → Resource
  pub hours : String → HourRange → Resource
  pub of_album : Option String

unfoldable pub album_kind : Provider → AlbumEntry → Kind
album_kind p e = record {
  source = in_album (album_id p e);
  collection = "Album";
  bucket = λ path r. album_date_bucket path e r;
  hours = λ path h. album_hour_bucket path e h;
  of_album = some (album_id p e);
}

unfoldable pub date_kind : String → Bool → Kind
date_kind view_name is_favorite = record {
  source = date_view is_favorite;
  collection = view_name;
  bucket = λ path r. date_bucket path view_name r is_favorite;
  hours = λ path h. hour_bucket path h is_favorite;
  of_album = none;
}

unfoldable pub view_kind : Fields → Kind
view_kind view = record {
  source = in_view (filters_of view);
  collection = "View";
  bucket = λ path r. saved_view_date_bucket path view r;
  hours = λ path h. saved_view_hour_bucket path view h;
  of_album = none;
}

-- The resource of a named asset, if there is one.
unfoldable pub asset_of : String → Kind → String → Dict Asset → Option Resource
asset_of path k name assets = Option.map (λ a. asset path a k.of_album) (lookup name assets)
