-- ===== src/Albums/Tests.antt =====
-- Two albums of one name, and one of another.
use immich_bridge.Prelude.{◌≡◌, refl, false, List, [], ◌∷◌, map, String}
use immich_bridge.Json.{Fields, str, end, field}
use immich_bridge.Segment.{
  safe_segment, safe_chars, is_unsafe, replace_unsafe, collapse, lstrip_edges, strip_edges,
}
use immich_bridge.Provider.{AlbumEntry, Provider, Filesystem, found, text_of}
use immich_bridge.Provider.Views.{text_or}
use immich_bridge.Albums.{
  add_to, album_base, short_id, suffixed_name, grouped, suffixed_entries, group_entries,
  all_entries, insert_entry, sorted_entries, album_entries,
}
use immich_bridge.Albums.Complete.{albums_of, album_entries-Perm}
use mathlib.Core.List.{Perm}

abbrev empty_library : Filesystem
empty_library = record {
  albums = found [];
  range_has_assets = λ source r. found false;
  should_split_day = λ source r. found false;
  list_date_buckets = λ source r level. found [];
  list_hour_buckets = λ source r. found [];
  list_assets = λ source. found [];
  list_date_assets = λ source r. found [];
  list_hour_assets = λ source h. found [];
}

abbrev pub provider : Provider
provider = record {
  connect = λ key scope threshold. empty_library;
  album_folder_split_threshold = 200;
  day_folder_split_threshold = 1000;
  upload_receipt_ttl_seconds = 30;
  mount = end;
  write_policy = end;
  enabled_views = [];
  sha256 = λ text. text;
  casefold = λ text. text;
  other_str = λ v. "";
}

abbrev named : String → String → Fields
named id name = field "id" (str id) (field "albumName" (str name) end)

abbrev albums : List Fields
albums = named "1-2" "Trip" ∷ named "3" "Art" ∷ named "4" "Trip" ∷ []

names_are_told_apart :
    map (λ (e : AlbumEntry). e.name) (album_entries provider albums)
    ≡ "Art" ∷ "Trip--12" ∷ "Trip--4" ∷ []
unfolding album_entries grouped add_to album_base short_id suffixed_name suffixed_entries
    group_entries all_entries insert_entry sorted_entries safe_segment safe_chars is_unsafe
    replace_unsafe collapse lstrip_edges strip_edges text_or text_of
names_are_told_apart = refl

album_entries-Perm_example : Perm (albums_of (album_entries provider albums)) albums
album_entries-Perm_example = album_entries-Perm provider albums
