-- ===== src/Provider/Tests.antt =====
-- A library of one album and one day, served by the provider.
use immich_bridge.Prelude.{
  inr, ℕ, String, ◌≡◌, refl, Bool, true, false, none, some, List, [], ◌∷◌, arith,
}
use immich_bridge.Json.{null, pos, Fields, bool, str, int, end, field}
use immich_bridge.Text.{split_once, parse_int, split, strip, signed_value, digits_value}
use immich_bridge.Dict.{lookup}
use immich_bridge.Paths.{child_path, path_parts, normalize, split_slash, rstrip_slash}
use immich_bridge.FsModel.{
  DateRange, date_range_from_parts, range_of_segments, month_of_texts, month_range, date,
  days_in_month, is_leap,
}
use immich_bridge.Provider.{
  Result, ok, found, run_fs, AlbumEntry, album_id, Filesystem, root, asset, album, date_bucket,
  upload, Environ, Provider, text_of,
}
use immich_bridge.Provider.Settings.{
  filesystem, flag, root_collection_names, should_split_album,
  configured_album_folder_split_threshold, configured_threshold, int_of, exceeds, write_allowed,
  bool_or,
}
use immich_bridge.Provider.Kinds.{album_kind, date_kind, asset_of}
use immich_bridge.Provider.Names.{is_virtual_readme_path, is_macos_below, is_macos_metadata_file}
use immich_bridge.Provider.Resolve.{
  resolve_albums, resolve_date_parts, get_resource_inst, resolve_in_range, resolve_checked,
}
use immich_bridge.Provider.Resolve.Receipts.{IsUnclaimed}
use immich_bridge.Provider.Resolve.Laws.{IsInRange, resolved-IsInRange}
use immich_bridge.Provider.Members.{get_member, get_member_names}
use immich_bridge.Provider.Folders.{asset_member}
use immich_bridge.Provider.Folders.Listed.{Listed}
use immich_bridge.Provider.Members.Listed.{member-Listed}
use immich_bridge.Provider.Members.Agree.{hidden_is_unreachable, listed_is_reachable}
use immich_bridge.Provider.ByteRanges.{
  ByteRange, byte_range_from_header, range_of_spec, range_of_texts, end_after, first_range,
}
use immich_bridge.Provider.ByteRanges.Headers.{range_header_read}
use immich_bridge.Client.Originals.{range_header}
use immich_bridge.Provider.Views.{decimal, decimal_from}
use immich_bridge.Provider.Writes.Keys.{no_key_no_change}
use immich_bridge.Provider.Writes.{
  create_collection, is_supported_media_upload_name, suffix, create_empty_resource, end_write,
  handle_delete, upload_or_raise, upload_staged, register_upload, record_upload, add_to_album,
  remember, finish, client, id_of,
}
use immich_bridge.Provider.Requests.{Platform, World, send}
use immich_bridge.Provider.Staging.{Upload, new_upload}
use immich_bridge.Provider.Writes.Laws.{
  AsksRemoval, handle_delete_asks, upload_is_allowed, upload_setting,
}
use immich_bridge.Provider.Writes.Uploads.{
  outcome, HasReceipt, end_write_cleans, uploaded_then_found,
}

abbrev photo : Fields
photo = field "id" (str "p1") end

abbrev trip : AlbumEntry
trip = record {
  name = "Trip";
  album = field "id" (str "al1") (field "assetCount" (int (pos 1)) end);
}

abbrev library : Filesystem
library = record {
  albums = found (trip ∷ []);
  range_has_assets = λ source r. found true;
  should_split_day = λ source r. found false;
  list_date_buckets = λ source r level. found ("2024" ∷ []);
  list_hour_buckets = λ source r. found [];
  list_assets = λ source. found (("a.jpg", photo) ∷ []);
  list_date_assets = λ source r. found (("a.jpg", photo) ∷ []);
  list_hour_assets = λ source h. found [];
}

-- The views are hidden, all else is at its default.
abbrev provider : Provider
provider = record {
  connect = λ key scope threshold. library;
  album_folder_split_threshold = 200;
  day_folder_split_threshold = 1000;
  upload_receipt_ttl_seconds = 30;
  mount = field "viewsEnabled" (bool false) end;
  write_policy = end;
  enabled_views = [];
  sha256 = λ text. text;
  casefold = λ text. text;
  other_str = λ v. "";
}

abbrev request : Environ
request = record { api_key = some "key"; user_id = str "u1" }

abbrev platform : Platform
platform = record {
  guess_type = λ name. none;
  lower = λ text. text;
  answer = λ before asked. found photo;
}

abbrev world : World
world = record { cache = []; requests = [] }

connected : filesystem provider request ≡ ok library
unfolding filesystem
connected = refl

trip_is_whole : should_split_album provider trip ≡ false
unfolding should_split_album configured_album_folder_split_threshold configured_threshold int_of
    exceeds
trip_is_whole = refl

photo_is_member :
    get_member provider request (album "/Albums/Trip" trip) "a.jpg"
    ≡ ok (some (asset "/Albums/Trip/a.jpg" photo (some "al1")))
unfolding get_member should_split_album configured_album_folder_split_threshold configured_threshold
    int_of exceeds filesystem asset_member asset_of album_kind album_id text_of lookup child_path
    rstrip_slash run_fs
photo_is_member = refl

member-Listed_example :
    Listed (get_member_names provider request (album "/Albums/Trip" trip)) "a.jpg"
member-Listed_example =
    member-Listed provider request (album "/Albums/Trip" trip) "a.jpg"
      (asset "/Albums/Trip/a.jpg" photo (some "al1")) (λ path e. absurd (ground arith)) refl
      photo_is_member

handle_delete_asks_example :
    AsksRemoval provider []
      (asset "/Albums/Trip/a.jpg" photo (some "al1"))
      (handle_delete provider platform request
        (asset "/Albums/Trip/a.jpg" photo (some "al1"))
        world).1.requests
handle_delete_asks_example =
    handle_delete_asks provider platform request (asset "/Albums/Trip/a.jpg" photo (some "al1"))
      world

abbrev may_2024 : List String
may_2024 = "2024" ∷ "2024-05" ∷ []

abbrev may : DateRange
may = record {
  start = record { year = 2024; month = 5; day = 1 };
  end = record { year = 2024; month = 6; day = 1 };
}

may_resolves :
    resolve_date_parts library "/Timeline/2024/2024-05" (date_kind "Timeline" false) may_2024
    ≡ ok (some (date_bucket "/Timeline/2024/2024-05" "Timeline" may false))
unfolding date_kind resolve_date_parts resolve_checked resolve_in_range date_range_from_parts
    range_of_segments month_of_texts month_range date parse_int split strip signed_value
    digits_value days_in_month is_leap run_fs
may_resolves = refl

resolved-IsInRange_example :
    IsInRange library "/Timeline/2024/2024-05"
      (date_kind "Timeline" false)
      may_2024
      (date_bucket "/Timeline/2024/2024-05" "Timeline" may false)
resolved-IsInRange_example =
    resolved-IsInRange library "/Timeline/2024/2024-05" (date_kind "Timeline" false) may_2024
      (date_bucket "/Timeline/2024/2024-05" "Timeline" may false) may_resolves

hidden_is_unreachable_example :
    get_resource_inst provider request 5 "/Views/Best" [] ≡ (ok none, [])
unfolding get_member_names root_collection_names flag path_parts normalize split_slash rstrip_slash
    is_virtual_readme_path is_macos_below is_macos_metadata_file
hidden_is_unreachable_example =
    hidden_is_unreachable provider request 5 "/Views/Best" "Views" ("Best" ∷ []) [] refl refl refl
      refl refl

listed_is_reachable_example :
    get_resource_inst provider request 5 (child_path "/" "Albums") []
    ≡ (get_member provider request (root "/") "Albums", [])
unfolding root_collection_names flag
listed_is_reachable_example = listed_is_reachable provider request 5 "Albums" [] refl refl

jpg_is_supported :
    create_empty_resource provider platform request (album "/Albums/Trip" trip) "b.jpg"
    ≡ ok (upload "/Albums/Trip/b.jpg" "b.jpg" (some "al1"))
unfolding create_empty_resource is_macos_metadata_file write_allowed bool_or
    is_supported_media_upload_name suffix child_path rstrip_slash album_id text_of
jpg_is_supported = refl

abbrev file : String
file = "b.jpg"

upload_is_allowed_example :
    (write_allowed provider
        (upload_setting provider platform request (album "/Albums/Trip" trip))
        true
      ≡ true)
    × (is_supported_media_upload_name platform "b.jpg" ≡ true)
    × (file ≡ "b.jpg")
upload_is_allowed_example =
    upload_is_allowed provider platform request (album "/Albums/Trip" trip) "b.jpg"
      "/Albums/Trip/b.jpg" file (some "al1") jpg_is_supported

abbrev chunks : List (List ℕ)
chunks = (1 ∷ 2 ∷ []) ∷ (3 ∷ []) ∷ []

abbrev new_photo : Upload
new_photo = new_upload "/Albums/Trip/b.jpg" "b.jpg" (some "al1")

abbrev staged_photo : Upload
staged_photo = record {
  path = "/Albums/Trip/b.jpg";
  filename = "b.jpg";
  album_id = some "al1";
  content_type = none;
  temp = some (1 ∷ 2 ∷ []);
  bytes_written = 2;
  uploaded_payload = none;
}

end_write_cleans_example :
    ((end_write provider platform request 5 "now" true false staged_photo world).1.temp ≡ none)
    × ((end_write provider platform request 5 "now" false false staged_photo world).1.temp
        ≡ some (1 ∷ 2 ∷ []))
    × (outcome provider platform request
          (end_write provider platform request 5 "now" false false staged_photo world)
        ≡ outcome provider platform request
            (end_write provider platform request 5 "now" true false staged_photo world))
    × ((end_write provider platform request 5 "now" false true staged_photo world).2 ≡ world)
end_write_cleans_example =
    end_write_cleans provider platform request 5 "now" false false staged_photo world

abbrev written : Result Bool × Upload × World
written = end_write provider platform request 5 "now" true false staged_photo world

upload_succeeds : written ≡ (ok true, written.1, written.2)
unfolding end_write upload_or_raise upload_staged register_upload record_upload add_to_album
    remember finish client send id_of text_of run_fs
upload_succeeds = refl

-- The album has no file of that name yet.
new_photo-IsUnclaimed : IsUnclaimed provider request "/Albums/Trip/b.jpg"
unfolding normalize path_parts split_slash rstrip_slash is_virtual_readme_path is_macos_below
    is_macos_metadata_file root_collection_names flag resolve_albums filesystem run_fs
    should_split_album lookup
new_photo-IsUnclaimed = record {
  normal = refl;
  first = "Albums";
  rest = "Trip" ∷ "b.jpg" ∷ [];
  parts = refl;
  no_readme = refl;
  no_metadata = refl;
  place = inr (refl, refl, refl);
}

uploaded_then_found_example :
    HasReceipt provider platform request 20 staged_photo written.1 world written.2 (1 ∷ 2 ∷ [])
uploaded_then_found_example =
    uploaded_then_found provider platform request 5 20 "now" true staged_photo written.1 world
      written.2 (1 ∷ 2 ∷ []) refl (λ e. absurd (ground arith)) (omega arith) new_photo-IsUnclaimed
      upload_succeeds

abbrev second_to_fourth : ByteRange
second_to_fourth = record { start = 1; end = some 3 }

header_is_read : byte_range_from_header (str "bytes=1-3") ≡ some second_to_fourth
unfolding byte_range_from_header first_range range_of_spec range_of_texts end_after parse_int strip
    signed_value digits_value split_once
header_is_read = refl

range_header_read_example :
    byte_range_from_header (str "bytes=1-3") ≡ some (record { start = 1; end = some 3 })
unfolding range_header decimal decimal_from
range_header_read_example = range_header_read 1 3 "bytes=1-3" (omega arith) refl

abbrev anonymous : Environ
anonymous = record { api_key = none; user_id = null }

no_key_no_change_example :
    ((end_write provider platform anonymous 5 "now" true false staged_photo world).2 ≡ world)
    × ((handle_delete provider platform anonymous
          (asset "/Albums/Trip/a.jpg" photo (some "al1"))
          world).1
        ≡ world)
    × ((create_collection provider platform anonymous
          (asset "/Albums/Trip/a.jpg" photo (some "al1"))
          "New"
          world).1
        ≡ world)
no_key_no_change_example =
    no_key_no_change provider platform anonymous refl
      (asset "/Albums/Trip/a.jpg" photo (some "al1")) "New" 5 "now" true false staged_photo world
