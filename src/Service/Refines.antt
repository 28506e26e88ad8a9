-- ===== src/Service/Refines.antt =====
-- src/immich_bridge/fs_service.py: the answers of a request, as
-- src/immich_bridge/webdav_provider.py sees them.
use immich_bridge.Prelude.{ℕ, String, ◌≡◌, refl, ap, ◌∙◌, Bool, Option, none, some, List, [], ◌∷◌}
use immich_bridge.Json.{Fields}
use immich_bridge.FsModel.{Date, DateRange}
use immich_bridge.Provider.{FsResult, Asset, date_view, in_album, in_view, year, month, day, Level}
use immich_bridge.Provider
use immich_bridge.Service.{
  found, ImmichFilesystem, Key, Stored, Session, Run, ◌>>=◌, done, or_error,
}
use immich_bridge.Service.Memo.{memoized}
use immich_bridge.Service.Buckets.{
  albums, search_all_assets, date_range_has_assets, album_date_range_has_assets,
  view_date_range_has_assets, date_bounds, album_date_bounds, view_date_bounds, year_names,
  month_names, outside, months_down, years_between, fallback_buckets, fallback_date_buckets,
  year_or_month_buckets, month_buckets, days_of, list_date_buckets, view_buckets,
  list_view_date_buckets, list_album_date_buckets, should_split_day, should_split_album_day,
  should_split_view_day, hours_of, list_hour_buckets, list_album_hour_buckets,
  list_view_hour_buckets,
}
use immich_bridge.Service.Folders.{
  entries_of, list_date_assets, list_album_date_assets, list_view_date_assets, list_hour_assets,
  list_album_hour_assets, list_view_hour_assets, list_album_assets, list_view_assets,
}
use immich_bridge.Service.Settled.{
  Later, Settled, done-Settled, memoized-Settled, bind-Settled, or_error-Settled, if-Settled,
}
use immich_bridge.Service.Operations.{
  Operation, albums_op, range_has_assets_op, should_split_op, date_buckets_op, hour_buckets_op,
  date_assets_op, hour_assets_op, album_assets_op, view_assets_op, perform, fs_result, snapshot,
  answer_of,
}

module _ (fs : ImmichFilesystem) where
  kept-Settled :
      {A : Type 0} (key : Key) (g : Stored → A) → Settled fs (memoized fs key >>= (λ v. done (g v)))
  kept-Settled key g =
      bind-Settled fs (memoized fs key) _ (memoized-Settled fs key) (λ v. done-Settled fs (g v))

  mapped-Settled :
      {A B : Type 0} (m : Run A) (g : A → B) → Settled fs m → Settled fs (m >>= (λ a. done (g a)))
  mapped-Settled m g h = bind-Settled fs m _ h (λ a. done-Settled fs (g a))

  search-Settled : (filters : Fields) → Settled fs (search_all_assets fs filters)
  unfolding search_all_assets
  search-Settled filters = kept-Settled _ _

  -- A test that is settled for every range.
  abbrev pub SettledTest : (DateRange → Run Bool) → Type 0
  SettledTest has = (r : DateRange) → Settled fs (has r)

  pub year_names-Settled :
      (has : DateRange → Run Bool)
      → SettledTest has
      → (ys : List ℕ) → Settled fs (year_names has ys)
  unfolding year_names
  year_names-Settled has h [] = done-Settled fs []
  year_names-Settled has h (y ∷ ys) = bind-Settled fs (or_error _) _ (or_error-Settled fs _) (λ r.
      bind-Settled fs (has r) _ (h r)
        (λ listed. mapped-Settled (year_names has ys) _ (year_names-Settled has h ys)))

  month_names-Settled :
      (has : DateRange → Run Bool)
      → SettledTest has
      → (r : DateRange) (ms : List ℕ) → Settled fs (month_names has r ms)
  unfolding month_names
  month_names-Settled has h r [] = done-Settled fs []
  month_names-Settled has h r (m ∷ ms) =
      bind-Settled fs (or_error _) _ (or_error-Settled fs _) (λ (start : Date).
        if-Settled fs (outside start r) _ _ (month_names-Settled has h r ms) (
          bind-Settled fs (or_error _) _ (or_error-Settled fs _) (λ end.
            bind-Settled fs (has _) _ (h _) (λ listed.
              mapped-Settled (month_names has r ms) _ (month_names-Settled has h r ms)))))

  pub date_has-Settled : (favorite : Bool) → SettledTest (date_range_has_assets fs favorite)
  unfolding date_range_has_assets
  date_has-Settled favorite r = kept-Settled _ _

  album_has-Settled : (id : String) → SettledTest (album_date_range_has_assets fs id)
  unfolding album_date_range_has_assets
  album_has-Settled id r = kept-Settled _ _

  view_has-Settled : (filters : Fields) → SettledTest (view_date_range_has_assets fs filters)
  unfolding view_date_range_has_assets
  view_has-Settled filters r = kept-Settled _ _

  years_between-Settled :
      (has : DateRange → Run Bool)
      → SettledTest has
      → (b : Option (Date × Date)) → Settled fs (years_between fs has b)
  unfolding years_between
  years_between-Settled has h none = done-Settled fs []
  years_between-Settled has h (some (oldest, newest)) = year_names-Settled has h _

  days_of-Settled : (filters : Fields) → Settled fs (days_of fs filters)
  unfolding days_of
  days_of-Settled filters = mapped-Settled _ _ (search-Settled filters)

  fallback-Settled :
      (favorite : Bool) (r : Option DateRange) (level : Level) (b : Option (Date × Date))
      → Settled fs (fallback_buckets fs favorite r level b)
  unfolding fallback_buckets
  fallback-Settled favorite r level none = done-Settled fs []
  fallback-Settled favorite r year (some b) =
      years_between-Settled _ (date_has-Settled favorite) (some b)
  fallback-Settled favorite (some r) month (some b) =
      month_names-Settled _ (date_has-Settled favorite) r months_down
  fallback-Settled favorite none month (some b) = done-Settled fs []
  fallback-Settled favorite r day (some b) = done-Settled fs []

  fallback_all-Settled :
      (r : Option DateRange) (level : Level) (favorite : Bool)
      → Settled fs (fallback_date_buckets fs r level favorite)
  unfolding fallback_date_buckets date_bounds
  fallback_all-Settled r level favorite =
      bind-Settled fs (date_bounds fs favorite) _ (kept-Settled _ _)
        (fallback-Settled favorite r level)

  year_or_month-Settled :
      (r : Option DateRange) (level : Level) (favorite : Bool) (ts : Option (List Date))
      → Settled fs (year_or_month_buckets fs r level favorite ts)
  unfolding year_or_month_buckets
  year_or_month-Settled r level favorite none = fallback_all-Settled r level favorite
  year_or_month-Settled r year favorite (some ts) = done-Settled fs _
  year_or_month-Settled (some r) month favorite (some ts) = done-Settled fs _
  year_or_month-Settled none month favorite (some ts) = done-Settled fs _
  year_or_month-Settled r day favorite (some ts) = done-Settled fs _

  date_buckets-Settled :
      (favorite : Bool) (r : Option DateRange) (level : Level)
      → Settled fs (list_date_buckets fs favorite r level)
  unfolding list_date_buckets month_buckets
  date_buckets-Settled favorite r year =
      bind-Settled fs (month_buckets fs favorite) _ (kept-Settled _ _)
        (year_or_month-Settled r year favorite)
  date_buckets-Settled favorite r month =
      bind-Settled fs (month_buckets fs favorite) _ (kept-Settled _ _)
        (year_or_month-Settled r month favorite)
  date_buckets-Settled favorite (some r) day = days_of-Settled _
  date_buckets-Settled favorite none day = done-Settled fs []

  view_branches-Settled :
      (filters : Fields) (r : Option DateRange) (level : Level) (b : Option (Date × Date))
      → Settled fs (view_buckets fs filters r level b)
  unfolding view_buckets
  view_branches-Settled filters r level none = done-Settled fs []
  view_branches-Settled filters r year (some b) =
      years_between-Settled _ (view_has-Settled filters) (some b)
  view_branches-Settled filters (some r) month (some b) =
      month_names-Settled _ (view_has-Settled filters) r months_down
  view_branches-Settled filters (some r) day (some b) = days_of-Settled _
  view_branches-Settled filters none month (some b) = done-Settled fs []
  view_branches-Settled filters none day (some b) = done-Settled fs []

  view_buckets-Settled :
      (filters : Fields) (r : Option DateRange) (level : Level)
      → Settled fs (list_view_date_buckets fs filters r level)
  unfolding list_view_date_buckets view_date_bounds
  view_buckets-Settled filters r level =
      bind-Settled fs (view_date_bounds fs filters) _ (kept-Settled _ _)
        (view_branches-Settled filters r level)

  album_buckets-Settled :
      (id : String) (r : Option DateRange) (level : Level)
      → Settled fs (list_album_date_buckets fs id r level)
  unfolding list_album_date_buckets album_date_bounds
  album_buckets-Settled id r year =
      bind-Settled fs (album_date_bounds fs id) _ (kept-Settled _ _)
        (years_between-Settled _ (album_has-Settled id))
  album_buckets-Settled id (some r) month =
      month_names-Settled _ (album_has-Settled id) r months_down
  album_buckets-Settled id (some r) day = days_of-Settled _
  album_buckets-Settled id none month = done-Settled fs []
  album_buckets-Settled id none day = done-Settled fs []

  hours_of-Settled : (filters : Fields) → Settled fs (hours_of fs filters)
  unfolding hours_of
  hours_of-Settled filters = mapped-Settled _ _ (search-Settled filters)

  entries_of-Settled : (filters : Fields) → Settled fs (entries_of fs filters)
  unfolding entries_of
  entries_of-Settled filters = mapped-Settled _ _ (search-Settled _)

  hour_entries-Settled :
      (o : Option String) (filters : String → Fields)
      → Settled fs (or_error o >>= (λ after. entries_of fs (filters after)))
  hour_entries-Settled o filters =
      bind-Settled fs (or_error o) _ (or_error-Settled fs o) (λ after. entries_of-Settled _)

  perform-Settled : {A : Type 0} (op : Operation A) → Settled fs (perform fs op)
  unfolding perform albums should_split_day should_split_album_day should_split_view_day
      list_hour_buckets list_album_hour_buckets list_view_hour_buckets list_date_assets
      list_album_date_assets list_view_date_assets list_hour_assets list_album_hour_assets
      list_view_hour_assets list_album_assets list_view_assets
  perform-Settled albums_op = kept-Settled _ _
  perform-Settled (range_has_assets_op (date_view favorite) r) = date_has-Settled favorite r
  perform-Settled (range_has_assets_op (in_album id) r) = album_has-Settled id r
  perform-Settled (range_has_assets_op (in_view filters) r) = view_has-Settled filters r
  perform-Settled (should_split_op (date_view favorite) r) = kept-Settled _ _
  perform-Settled (should_split_op (in_album id) r) = kept-Settled _ _
  perform-Settled (should_split_op (in_view filters) r) = kept-Settled _ _
  perform-Settled (date_buckets_op (date_view favorite) r level) =
      date_buckets-Settled favorite r level
  perform-Settled (date_buckets_op (in_album id) r level) = album_buckets-Settled id r level
  perform-Settled (date_buckets_op (in_view filters) r level) = view_buckets-Settled filters r level
  perform-Settled (hour_buckets_op (date_view favorite) r) = hours_of-Settled _
  perform-Settled (hour_buckets_op (in_album id) r) = hours_of-Settled _
  perform-Settled (hour_buckets_op (in_view filters) r) = hours_of-Settled _
  perform-Settled (date_assets_op (date_view favorite) r) = entries_of-Settled _
  perform-Settled (date_assets_op (in_album id) r) = entries_of-Settled _
  perform-Settled (date_assets_op (in_view filters) r) = entries_of-Settled _
  perform-Settled (hour_assets_op (date_view favorite) r) = hour_entries-Settled _ _
  perform-Settled (hour_assets_op (in_album id) r) = hour_entries-Settled _ _
  perform-Settled (hour_assets_op (in_view filters) r) = hour_entries-Settled _ _
  perform-Settled (album_assets_op id) = entries_of-Settled _
  perform-Settled (view_assets_op filters) = entries_of-Settled _

  snapshot_answer :
      {A : Type 0} (op : Operation A) (t : Session)
      → answer_of (snapshot fs t) op ≡ fs_result (perform fs op t).0
  unfolding answer_of snapshot
  snapshot_answer albums_op t = refl
  snapshot_answer (range_has_assets_op source r) t = refl
  snapshot_answer (should_split_op source r) t = refl
  snapshot_answer (date_buckets_op source r level) t = refl
  snapshot_answer (hour_buckets_op source r) t = refl
  snapshot_answer (date_assets_op source r) t = refl
  snapshot_answer (hour_assets_op source r) t = refl
  snapshot_answer (album_assets_op id) t = refl
  snapshot_answer (view_assets_op filters) t = refl

  -- Whatever an operation of the filesystem service answered in a request, an answer that is found and
  -- not an exception, any later session of the request answers the same, and without asking the
  -- client, even if the library has changed meanwhile: the answers that were found in a request are
  -- all fields of the Filesystem that its last session is. Of operations that raised, nothing is said.
  pub perform-snapshot :
      {A : Type 0} (op : Operation A) (a : A) (s t : Session)
      → (perform fs op s).0 ≡ found a
      → Later fs (perform fs op s).1 t
      → (answer_of (snapshot fs t) op ≡ Provider.found a) × ((perform fs op t).1 ≡ t)
  perform-snapshot op a s t e later =
      let again : perform fs op t ≡ (found a, t) = (perform-Settled op s).1 a e t later in
      (snapshot_answer op t ∙ ap (λ r. fs_result r.0) again, ap (λ r. r.1) again)

  -- Performing an operation leads to a later session.
  pub perform-Later : {A : Type 0} (op : Operation A) (s : Session) → Later fs s (perform fs op s).1
  perform-Later op s = (perform-Settled op s).0
