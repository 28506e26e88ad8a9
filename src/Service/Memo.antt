-- ===== src/Service/Memo.antt =====
-- src/immich_bridge/fs_service.py: `_memoized` with its keys, and the loaders that it runs.
use immich_bridge.Prelude.{
  zero, Bool, true, false, not, ◌&&◌, Option, none, some, List, [], ◌∷◌, ◌++◌, ◌==◌, length,
  if◌then◌else◌, str_eq,
}
use immich_bridge.Json.{ℤ, pos, Fields}
use immich_bridge.FsModel.{Date, DateRange}
use immich_bridge.Provider.{AlbumEntry, Asset, Source, date_view, in_album, in_view}
use immich_bridge.Provider.Settings.{exceeds}
use immich_bridge.Albums.{album_entries}
use immich_bridge.Assets.{iso_boundary, asset_datetime, month_bucket_date}
use immich_bridge.Service.{
  Answer, found, api_error, truncated, other_error, unfinished, SearchPage, list_albums,
  timeline_buckets, ImmichFilesystem, Key, albums_key, range_has_assets_key, date_bounds_key,
  month_buckets_key, should_split_key, search_all_key, Stored, album_list, flag, date_pair,
  month_list, asset_list, Run, ◌>>=◌, give, done, ask, load_search_all,
}
use immich_bridge.Service.Filters.{
  view_search_filters, dated, undated, with_exif, ordered, same_filters,
}
use immich_bridge.Service.Sets.{date_before, sorted_set}

abbrev pub same_bool : Bool → Bool → Bool
same_bool true b = b
same_bool false b = not b

abbrev same_date : Date → Date → Bool
same_date a b = (a.year == b.year) && (a.month == b.month) && (a.day == b.day)

abbrev pub same_range : DateRange → DateRange → Bool
same_range a b = same_date a.start b.start && same_date a.end b.end

unfoldable pub same_source : Source → Source → Bool
same_source (date_view a) (date_view b) = same_bool a b
same_source (in_album a) (in_album b) = str_eq a b
same_source (in_view a) (in_view b) = same_filters a b
same_source _ _ = false

-- `a == b`, of keys of the memo
unfoldable pub same_key : Key → Key → Bool
unfolding same_source
same_key albums_key albums_key = true
same_key (range_has_assets_key a q) (range_has_assets_key b r) = same_source a b && same_range q r
same_key (date_bounds_key a) (date_bounds_key b) = same_source a b
same_key (month_buckets_key a) (month_buckets_key b) = same_bool a b
same_key (should_split_key a q) (should_split_key b r) = same_source a b && same_range q r
same_key (search_all_key a) (search_all_key b) = same_filters a b
same_key _ _ = false

-- `self._memo.get(key)`
unfoldable pub recall : Key → List (Key × Stored) → Option Stored
unfolding same_key
recall key [] = none
recall key ((other, v) ∷ memo) =
    let rest = recall key memo in if same_key other key then some v else rest

abbrev pub is_empty {ℓ} : {A : Type ℓ} → List A → Bool
is_empty [] = true
is_empty (x ∷ xs) = false

-- The filters of a source as the client takes them.
unfoldable pub searched : Source → Source
searched (in_view filters) = in_view (view_search_filters filters)
searched source = source

-- `page.total or len(page.items)`
unfoldable pub total_of : SearchPage → ℤ
total_of page = elim page.total [
  | none ↦ pos (length page.items)
  | some (pos zero) ↦ pos (length page.items)
  | some n ↦ n
]

module _ (fs : ImmichFilesystem) where
  -- The loader of `albums`.
  unfoldable pub load_albums : Run (List AlbumEntry)
  load_albums s =
      (give (fs.client.albums s.calls) >>= (λ albums. done (album_entries fs.provider albums)))
        (record s { calls = list_albums ∷ s.calls })

  unfoldable pub date_of : Asset → Date
  date_of asset = (asset_datetime fs.provider fs.formats asset).date

  -- The loaders of `date_range_has_assets`, `album_date_range_has_assets` and
  -- `view_date_range_has_assets`.
  unfoldable pub load_range_has_assets : Source → DateRange → Run Bool
  unfolding ask dated
  load_range_has_assets source r = do
    page ←
        ask fs (pos 1) 1
          (with_exif false (dated source (iso_boundary r.start) (iso_boundary r.end)))
    done (not (is_empty page.items))

  -- The dates of the first assets of two pages.
  unfoldable pub first_dates : List Asset → List Asset → Option (Date × Date)
  unfolding date_of
  first_dates (a ∷ oldest) (b ∷ newest) = some (date_of a, date_of b)
  first_dates _ _ = none

  -- `_load_date_bounds`, `_load_album_date_bounds` and `_load_view_date_bounds`
  unfoldable pub load_date_bounds : Source → Run (Option (Date × Date))
  unfolding ask undated first_dates
  load_date_bounds source = do
    oldest ← ask fs (pos 1) 1 (ordered "asc" (with_exif false (undated source)))
    newest ← ask fs (pos 1) 1 (ordered "desc" (with_exif false (undated source)))
    done (first_dates oldest.items newest.items)

  -- The dates of the buckets that have one.
  unfoldable pub bucket_dates : List Fields → List Date
  unfolding month_bucket_date
  bucket_dates [] = []
  bucket_dates (bucket ∷ buckets) =
      let rest = bucket_dates buckets in
      elim (month_bucket_date fs.provider fs.formats bucket) [ none ↦ rest | some t ↦ t ∷ rest ]

  -- The months of the timeline's buckets; an `ImmichApiError` is caught.
  unfoldable pub caught_months : Answer (List Fields) → Answer (Option (List Date))
  unfolding bucket_dates sorted_set
  caught_months (found buckets) =
      found (some (sorted_set (λ a b. date_before b a) (bucket_dates buckets)))
  caught_months (api_error status) = found none
  caught_months truncated = truncated
  caught_months other_error = other_error
  caught_months unfinished = unfinished

  unfoldable pub timeline_month_buckets : Bool → Run (Option (List Date))
  unfolding caught_months
  timeline_month_buckets favorite s = (
    caught_months (fs.client.buckets s.calls favorite),
    record s { calls = timeline_buckets favorite ∷ s.calls },
  )

  -- `_load_should_split_day`, `_load_should_split_album_day` and `_load_should_split_view_day`
  unfoldable pub load_should_split : Source → DateRange → Run Bool
  unfolding ask dated searched total_of exceeds
  load_should_split source r = do
    page ←
        ask fs (pos 1) 1
          (with_exif false (dated (searched source) (iso_boundary r.start) (iso_boundary r.end)))
    done (exceeds (total_of page) fs.day_folder_split_threshold)

  -- What the method that asks for a key loads.
  unfoldable pub load : Key → Run Stored
  unfolding load_albums load_range_has_assets load_date_bounds timeline_month_buckets
      load_should_split load_search_all
  load albums_key = load_albums >>= (λ es. done (album_list es))
  load (range_has_assets_key source r) = load_range_has_assets source r >>= (λ b. done (flag b))
  load (date_bounds_key source) = load_date_bounds source >>= (λ b. done (date_pair b))
  load (month_buckets_key favorite) = timeline_month_buckets favorite >>= (λ m. done (month_list m))
  load (should_split_key source r) = load_should_split source r >>= (λ b. done (flag b))
  load (search_all_key filters) = load_search_all fs filters >>= (λ a. done (asset_list a))

  -- `self._memo[key] = value`
  unfoldable pub remember : Key → Stored → Run Stored
  remember key v s = (found v, record s { memo = s.memo ++ (key, v) ∷ [] })

  -- `_memoized`; an exception of the loader is not kept
  unfoldable pub memoized : Key → Run Stored
  unfolding recall load remember
  memoized key s = elim (recall key s.memo) [
    | none ↦ (load key >>= remember key) s
    | some v ↦ (found v, s)
  ]
