-- ===== src/Service/Buckets.antt =====
-- src/immich_bridge/fs_service.py: the methods that say which date folders and hour folders there are.
use immich_bridge.Prelude.{
  ℕ, zero, suc, ◌+◌, ◌-◌, String, Bool, false, not, ◌&&◌, ◌||◌, Option, none, some, List, [], ◌∷◌,
  ltb, if◌then◌else◌, map,
}
use immich_bridge.Json.{Fields}
use immich_bridge.FsModel.{Date, DateRange, date, month_end, year_range}
use immich_bridge.Provider.{
  AlbumEntry, Asset, date_view, in_album, in_view, Level, year, month, day,
}
use immich_bridge.Provider.Views.{decimal}
use immich_bridge.Assets.{iso_boundary, asset_datetime, month_text, isoformat, two_digit_text}
use immich_bridge.Service.{
  ImmichFilesystem, albums_key, range_has_assets_key, date_bounds_key, month_buckets_key,
  should_split_key, search_all_key, Stored, album_list, flag, date_pair, month_list, asset_list,
  Run, ◌>>=◌, done, or_error,
}
use immich_bridge.Service.Filters.{view_search_filters, dated, with_exif, ordered, with_date_bounds}
use immich_bridge.Service.Sets.{date_before, sorted_set}
use immich_bridge.Service.Memo.{memoized, date_of}

-- A stored value as what its key stores; no key stores a value of another sort.
abbrev pub as_flag : Stored → Bool
as_flag (flag b) = b
as_flag _ = false

abbrev pub as_entries : Stored → List AlbumEntry
as_entries (album_list es) = es
as_entries _ = []

abbrev pub as_bounds : Stored → Option (Date × Date)
as_bounds (date_pair b) = b
as_bounds _ = none

abbrev pub as_months : Stored → Option (List Date)
as_months (month_list m) = m
as_months _ = none

abbrev pub as_assets : Stored → List Asset
as_assets (asset_list assets) = assets
as_assets _ = []

-- `range(newest.year, oldest.year - 1, -1)`: `count` years, the last of them `newest`
unfoldable pub years_down : ℕ → ℕ → List ℕ
years_down zero newest = []
years_down (suc count) newest = newest ∷ years_down count (newest - 1)

-- `range(12, 0, -1)`
abbrev pub months_down : List ℕ
months_down = 12 ∷ 11 ∷ 10 ∷ 9 ∷ 8 ∷ 7 ∷ 6 ∷ 5 ∷ 4 ∷ 3 ∷ 2 ∷ 1 ∷ []

abbrev pub listed_if : Bool → String → List String → List String
listed_if listed name names = if listed then name ∷ names else names

-- The year and month folders of those ranges that have assets.
unfoldable pub year_names : (DateRange → Run Bool) → List ℕ → Run (List String)
year_names has_assets [] = done []
year_names has_assets (y ∷ ys) = do
  candidate ← or_error (year_range (some y))
  listed ← has_assets candidate
  names ← year_names has_assets ys
  done (listed_if listed (decimal y) names)

-- `start < date_range.start or start >= date_range.end`
unfoldable pub outside : Date → DateRange → Bool
unfolding date_before
outside start r = date_before start r.start || not (date_before start r.end)

unfoldable pub month_names : (DateRange → Run Bool) → DateRange → List ℕ → Run (List String)
unfolding outside month_text
month_names has_assets r [] = done []
month_names has_assets r (m ∷ ms) = or_error (date r.start.year m 1) >>= (λ (start : Date).
    if outside start r then month_names has_assets r ms else (do
      end ← or_error (month_end r.start.year m)
      listed ← has_assets (record { start = start; end = end })
      names ← month_names has_assets r ms
      done (listed_if listed (month_text start.year start.month) names)))

module _ (fs : ImmichFilesystem) where
  unfoldable pub albums : Run (List AlbumEntry)
  unfolding memoized
  albums = do v ← memoized fs albums_key; done (as_entries v)

  unfoldable pub search_all_assets : Fields → Run (List Asset)
  unfolding memoized
  search_all_assets filters = do v ← memoized fs (search_all_key filters); done (as_assets v)

  unfoldable pub date_range_has_assets : Bool → DateRange → Run Bool
  unfolding memoized
  date_range_has_assets favorite r = do
    v ← memoized fs (range_has_assets_key (date_view favorite) r)
    done (as_flag v)

  unfoldable pub album_date_range_has_assets : String → DateRange → Run Bool
  unfolding memoized
  album_date_range_has_assets id r = do
    v ← memoized fs (range_has_assets_key (in_album id) r)
    done (as_flag v)

  unfoldable pub view_date_range_has_assets : Fields → DateRange → Run Bool
  unfolding memoized view_search_filters
  view_date_range_has_assets filters r = do
    v ← memoized fs (range_has_assets_key (in_view (view_search_filters filters)) r)
    done (as_flag v)

  unfoldable pub date_bounds : Bool → Run (Option (Date × Date))
  unfolding memoized
  date_bounds favorite = do
    v ← memoized fs (date_bounds_key (date_view favorite))
    done (as_bounds v)

  unfoldable pub album_date_bounds : String → Run (Option (Date × Date))
  unfolding memoized
  album_date_bounds id = do v ← memoized fs (date_bounds_key (in_album id)); done (as_bounds v)

  unfoldable pub view_date_bounds : Fields → Run (Option (Date × Date))
  unfolding memoized view_search_filters
  view_date_bounds filters = do
    v ← memoized fs (date_bounds_key (in_view (view_search_filters filters)))
    done (as_bounds v)

  -- The year folders between two dates, newest first.
  unfoldable pub years_between : (DateRange → Run Bool) → Option (Date × Date) → Run (List String)
  unfolding year_names years_down
  years_between has_assets none = done []
  years_between has_assets (some (oldest, newest)) =
      year_names has_assets (years_down (newest.year + 1 - oldest.year) newest.year)

  -- `sorted({asset_datetime(asset).date() for asset in assets}, reverse=True)`, printed
  unfoldable pub day_names : List Asset → List String
  unfolding sorted_set date_of isoformat
  day_names assets = map isoformat (sorted_set (λ a b. date_before b a) (map (date_of fs) assets))

  -- `sorted({asset_datetime(asset).hour for asset in assets})`, printed
  unfoldable pub hour_names : List Asset → List String
  unfolding sorted_set two_digit_text asset_datetime
  hour_names assets =
      map two_digit_text
        (sorted_set ltb (map (λ a. (asset_datetime fs.provider fs.formats a).hour) assets))

  -- The branches of `fallback_date_buckets` on the level, once the first and last dates are known.
  unfoldable pub fallback_buckets :
      Bool → Option DateRange → Level → Option (Date × Date) → Run (List String)
  unfolding date_range_has_assets years_between month_names
  fallback_buckets favorite r level none = done []
  fallback_buckets favorite r year (some b) =
      years_between (date_range_has_assets favorite) (some b)
  fallback_buckets favorite (some r) month (some b) =
      month_names (date_range_has_assets favorite) r months_down
  fallback_buckets favorite none month (some b) = done []
  fallback_buckets favorite r day (some b) = done []

  unfoldable pub fallback_date_buckets : Option DateRange → Level → Bool → Run (List String)
  unfolding date_bounds fallback_buckets
  fallback_date_buckets r level favorite =
      date_bounds favorite >>= fallback_buckets favorite r level

  -- The month folders of a range, from the months that the timeline has.
  unfoldable pub months_within : DateRange → List Date → List String
  unfolding date_before month_text
  months_within r [] = []
  months_within r (t ∷ ts) =
      let rest = months_within r ts in
      if not (date_before t r.start) && date_before t r.end
      then month_text t.year t.month ∷ rest
      else rest

  -- `sorted({bucket.year for bucket in month_buckets}, reverse=True)`, printed
  unfoldable pub timeline_years : List Date → List String
  unfolding sorted_set decimal
  timeline_years ts = map decimal (sorted_set (λ a b. ltb b a) (map (λ (t : Date). t.year) ts))

  -- The year and month branches of `list_date_buckets`, of the months of the timeline if it gave any.
  unfoldable pub year_or_month_buckets :
      Option DateRange → Level → Bool → Option (List Date) → Run (List String)
  unfolding fallback_date_buckets months_within timeline_years
  year_or_month_buckets r level favorite none = fallback_date_buckets r level favorite
  year_or_month_buckets r year favorite (some ts) = done (timeline_years ts)
  year_or_month_buckets (some r) month favorite (some ts) = done (months_within r ts)
  year_or_month_buckets none month favorite (some ts) = done []
  year_or_month_buckets r day favorite (some ts) = done []

  unfoldable pub month_buckets : Bool → Run (Option (List Date))
  unfolding memoized
  month_buckets favorite = do v ← memoized fs (month_buckets_key favorite); done (as_months v)

  -- The days of the assets that a search gives.
  unfoldable pub days_of : Fields → Run (List String)
  unfolding search_all_assets day_names
  days_of filters = do assets ← search_all_assets filters; done (day_names assets)

  unfoldable pub list_date_buckets : Bool → Option DateRange → Level → Run (List String)
  unfolding month_buckets year_or_month_buckets days_of dated
  list_date_buckets favorite r year =
      month_buckets favorite >>= year_or_month_buckets r year favorite
  list_date_buckets favorite r month =
      month_buckets favorite >>= year_or_month_buckets r month favorite
  list_date_buckets favorite (some r) day = days_of (
      ordered "desc"
        (with_exif false (dated (date_view favorite) (iso_boundary r.start) (iso_boundary r.end))))
  list_date_buckets favorite none day = done []

  -- The branches of `list_view_date_buckets` on the level, once the first and last dates are known.
  unfoldable pub view_buckets :
      Fields → Option DateRange → Level → Option (Date × Date) → Run (List String)
  unfolding view_date_range_has_assets years_between month_names days_of with_date_bounds
      view_search_filters
  view_buckets filters r level none = done []
  view_buckets filters r year (some b) = years_between (view_date_range_has_assets filters) (some b)
  view_buckets filters (some r) month (some b) =
      month_names (view_date_range_has_assets filters) r months_down
  view_buckets filters (some r) day (some b) = days_of (
      ordered "desc" (
        with_exif false (
          with_date_bounds (view_search_filters filters) (iso_boundary r.start)
            (iso_boundary r.end))))
  view_buckets filters none month (some b) = done []
  view_buckets filters none day (some b) = done []

  unfoldable pub list_view_date_buckets : Fields → Option DateRange → Level → Run (List String)
  unfolding view_date_bounds view_buckets
  list_view_date_buckets filters r level = view_date_bounds filters >>= view_buckets filters r level

  unfoldable pub list_album_date_buckets : String → Option DateRange → Level → Run (List String)
  unfolding album_date_bounds album_date_range_has_assets years_between month_names days_of dated
  list_album_date_buckets id r year =
      album_date_bounds id >>= years_between (album_date_range_has_assets id)
  list_album_date_buckets id (some r) month =
      month_names (album_date_range_has_assets id) r months_down
  list_album_date_buckets id (some r) day = days_of (
      ordered "desc"
        (with_exif false (dated (in_album id) (iso_boundary r.start) (iso_boundary r.end))))
  list_album_date_buckets id none month = done []
  list_album_date_buckets id none day = done []

  unfoldable pub should_split_day : Bool → DateRange → Run Bool
  unfolding memoized
  should_split_day favorite r = do
    v ← memoized fs (should_split_key (date_view favorite) r)
    done (as_flag v)

  unfoldable pub should_split_album_day : String → DateRange → Run Bool
  unfolding memoized
  should_split_album_day id r = do
    v ← memoized fs (should_split_key (in_album id) r)
    done (as_flag v)

  unfoldable pub should_split_view_day : Fields → DateRange → Run Bool
  unfolding memoized
  should_split_view_day filters r = do
    v ← memoized fs (should_split_key (in_view filters) r)
    done (as_flag v)

  -- The hours of the assets that a search gives.
  unfoldable pub hours_of : Fields → Run (List String)
  unfolding search_all_assets hour_names
  hours_of filters = do assets ← search_all_assets filters; done (hour_names assets)

  unfoldable pub list_hour_buckets : Bool → DateRange → Run (List String)
  unfolding hours_of dated
  list_hour_buckets favorite r = hours_of (
      ordered "asc"
        (with_exif false (dated (date_view favorite) (iso_boundary r.start) (iso_boundary r.end))))

  unfoldable pub list_album_hour_buckets : String → DateRange → Run (List String)
  unfolding hours_of dated
  list_album_hour_buckets id r = hours_of (
      ordered "asc"
        (with_exif false (dated (in_album id) (iso_boundary r.start) (iso_boundary r.end))))

  unfoldable pub list_view_hour_buckets : Fields → DateRange → Run (List String)
  unfolding hours_of with_date_bounds view_search_filters
  list_view_hour_buckets filters r = hours_of (
      ordered "asc" (
        with_exif false (
          with_date_bounds (view_search_filters filters) (iso_boundary r.start)
            (iso_boundary r.end))))
