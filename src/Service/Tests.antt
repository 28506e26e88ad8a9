-- ===== src/Service/Tests.antt =====
-- A server of three assets in pages of two, and what the filesystem service makes of it.
use immich_bridge.Prelude.{
  ℕ, zero, suc, ◌*◌, ◌<◌, ◌≡◌, refl, ap, ◌≢◌, ◌==◌, eq_iff, inl, inr, String, Bool, true, false,
  none, some, List, [], ◌∷◌, arith, leb, length, take, drop, map, keep, str_eq, if◌then◌else◌,
  Bool-cases,
}
use immich_bridge.Json.{ℤ, pos, negsuc, null, int, str, Fields, end, field}
use immich_bridge.FsModel.{
  Date, DateRange, next_day, date, days_in_month, is_leap, date_range_from_parts, year_range,
}
use immich_bridge.FsModel.Ranges.{IsDate}
use immich_bridge.Provider.{Asset, Provider, FsResult, month, Filesystem, found, date_view}
use immich_bridge.Provider
use immich_bridge.Assets.{
  Formats, Moment, asset_display_name, asset_datetime, month_text, four_digit_text, isoformat,
}
use immich_bridge.Albums.Tests.{provider}
use immich_bridge.Service.{
  Answer, SearchPage, Client, ImmichFilesystem, Session, done, search_all_key, page_of,
}
use immich_bridge.Service
use immich_bridge.Service.Whole.{IsPage, IsPaged, search_all_whole, all_or_truncated}
use immich_bridge.Service.Memo.{recall}
use immich_bridge.Service.Buckets.{search_all_assets}
use immich_bridge.Service.Buckets.{
  days_of, day_names, years_between, years_down, date_range_has_assets, year_names,
}
use immich_bridge.Service.Sets.{date_before}
use immich_bridge.Provider.Views.{decimal}
use immich_bridge.Service.Days.{IsListed, days_of-IsListed, listed_day_opens}
use immich_bridge.Service.Years.{says_yes, year_days, years_between_listed, last_year_fails}
use immich_bridge.Service.Opens.{IsReachable, matching_asset_opens}
use immich_bridge.Segment.{
  safe_segment, safe_chars, is_unsafe, replace_unsafe, collapse, lstrip_edges, strip_edges,
}
use immich_bridge.Albums.{short_id}
use immich_bridge.Paths.{split_slash}
use immich_bridge.Provider.{text_of}
use immich_bridge.Provider.Views.{text_or}
use immich_bridge.Assets.Collisions.{IsUnmixed, longer}
use immich_bridge.Assets.{longer_name, stem, path_name}
use immich_bridge.Service.Operations.{
  Operation, range_has_assets_op, date_buckets_op, perform, snapshot, answer_of,
}
use immich_bridge.Service.Refines.{perform-snapshot, perform-Later, date_has-Settled}
use immich_bridge.Service.Settled.{here}
use immich_bridge.Service.Ends.{IsForward, Ended, search_all_assets-Ended}

abbrev moment : ℕ → ℕ → Moment
moment d hour = record {
  date = record { year = 2024; month = 5; day = d };
  hour = hour;
  minute = 4;
  second = 5;
  microsecond = 0;
  utc_offset = none;
}

abbrev formats : Formats
formats = record {
  datetime_fromisoformat = λ text.
      if str_eq text "first"
      then some (moment 1 9)
      else if str_eq text "late"
      then some (moment 2 23)
      else none;
  date_fromisoformat = λ text. none;
  guess_extension = λ text. none;
  lower = λ text. text;
}

abbrev asset : String → String → Asset
asset id taken =
    field "id" (str id)
      (field "originalFileName" (str "a.jpg") (field "localDateTime" (str taken) end))

abbrev library : List Asset
library = asset "11111111-1" "first" ∷ asset "2-2" "late" ∷ asset "11111111-3" "first" ∷ []

abbrev page_at : ℕ → ℕ → SearchPage
page_at n size = record {
  items = take size (drop (n * size) library);
  next_page = if leb (length library) (suc n * size) then null else int (pos (suc (suc n)));
  total = none;
}

abbrev answer : ℤ → ℕ → Answer SearchPage
answer (pos zero) size = Service.found (record { items = []; next_page = null; total = none })
answer (pos (suc n)) size = Service.found (page_at n size)
answer (negsuc n) size = Service.found (record { items = []; next_page = null; total = none })

-- A server that finds the same three assets for every search.
abbrev client : Client
client = record {
  search = λ calls page size filters. answer page size;
  albums = λ calls. Service.found [];
  buckets = λ calls favorite. Service.api_error (some 404);
}

abbrev fs : ImmichFilesystem
fs = record {
  client = client;
  search_page_size = 2;
  search_max_pages = 2;
  day_folder_split_threshold = pos 1000;
  rounds = 3;
  provider = provider;
  formats = formats;
}

abbrev fresh : Session
fresh = record { memo = []; calls = [] }

abbrev everything : Fields → List Asset
everything filters = library

page_at-IsPage : (n size : ℕ) → IsPage size n library (page_at n size)
unfolding page_of
page_at-IsPage n size = record {
  items_are = refl;
  last = λ h. (let e : leb (length library) (suc n * size) ≡ true = ground arith in rw e refl);
  more = λ h.
      (let e : leb (length library) (suc n * size) ≡ false = ground arith in
        rw e (ground arith, refl));
}

client-IsPaged : (size : ℕ) → IsPaged client size everything
client-IsPaged size calls n filters = (page_at n size, refl, page_at-IsPage n size)

search_all_whole_example : (search_all_assets fs end fresh).0 ≡ all_or_truncated 4 library
unfolding recall
search_all_whole_example =
    search_all_whole fs everything (client-IsPaged 2) (omega arith) (omega arith) end fresh refl

next_of : (a b : SearchPage) → Service.found a ≡ Service.found b → a.next_page ≡ b.next_page
next_of a b e = let same : a ≡ b = cc in ap (λ (p : SearchPage). p.next_page) same

answer-later :
    (n size : ℕ) (page : SearchPage) (next : ℤ)
    → answer (pos n) size ≡ Service.found page
    → page_of page.next_page ≡ Service.found next
    → (m : ℕ) × (next ≡ pos m) × (n < m)
unfolding page_of
answer-later zero size page next e h =
    let none_left : null ≡ page.next_page = next_of _ page e in
    let h' : page_of null ≡ Service.found next = rw (← none_left) at h in absurd (ground arith)
answer-later (suc n) size page next e h =
    let named : (page_at n size).next_page ≡ page.next_page = next_of _ page e in
    let h' : page_of (page_at n size).next_page ≡ Service.found next = rw (← named) at h in
    elim (Bool-cases (leb (length library) (suc n * size))) [
      | inl fits ↦
          let h'' : page_of null ≡ Service.found next = rw fits at h' in absurd (ground arith)
      | inr longer ↦
          let h'' : page_of (int (pos (suc (suc n)))) ≡ Service.found next = rw longer at h' in
          (suc (suc n), ground arith, omega arith)
    ]

answer_ends : (page : ℤ) (size : ℕ) → answer page size ≢ Service.unfinished
answer_ends (pos zero) size e = cc
answer_ends (pos (suc n)) size e = cc
answer_ends (negsuc n) size e = cc

client-IsForward : IsForward client
client-IsForward = record {
  answers = λ calls page size filters. answer_ends page size;
  later = λ calls n size filters page next e h. answer-later n size page next e h;
}

search_all_assets-Ended_example : Ended 2 (search_all_assets fs end fresh)
search_all_assets-Ended_example =
    search_all_assets-Ended fs client-IsForward (omega arith) end fresh

abbrev may : DateRange
may = record {
  start = record { year = 2024; month = 5; day = 1 };
  end = record { year = 2024; month = 6; day = 1 };
}

abbrev has_assets : Operation Bool
has_assets = range_has_assets_op (date_view false) may

-- What is asked between two asks of one question.
abbrev between : Session
between =
    (perform fs (date_buckets_op (date_view true) (some may) month)
      (perform fs has_assets fresh).1).1

perform-snapshot_example :
    (answer_of (snapshot fs between) has_assets ≡ Provider.found true)
    × ((perform fs has_assets between).1 ≡ between)
unfolding perform
perform-snapshot_example = perform-snapshot fs has_assets true fresh between refl (
    perform-Later fs (date_buckets_op (date_view true) (some may) month)
      (perform fs has_assets fresh).1)

days_of-IsListed_example :
    (names : List String) × ((days_of fs end fresh).0 ≡ Service.found names)
    × IsListed fs names library
days_of-IsListed_example = days_of-IsListed fs end fresh library search_all_whole_example

-- The days that are listed.
two_days : day_names fs library ≡ "2024-05-02" ∷ "2024-05-01" ∷ []
unfolding day_names date_before asset_datetime
two_days = refl

abbrev leap_day : Date
leap_day = record { year = 2024; month = 2; day = 29 }

leap_day-IsDate : IsDate leap_day
unfolding days_in_month is_leap
leap_day-IsDate = record {
  year_pos = omega arith;
  year_max = omega arith;
  month_pos = omega arith;
  month_max = omega arith;
  day_pos = omega arith;
  day_max = omega arith;
}

listed_day_opens_example :
    date_range_from_parts ("Timeline" ∷ "2024" ∷ "2024-02" ∷ "2024-02-29" ∷ [])
    ≡ some (record { start = leap_day; end = record { year = 2024; month = 3; day = 1 } })
unfolding next_day date days_in_month month_text four_digit_text isoformat decimal
listed_day_opens_example =
    listed_day_opens "Timeline" leap_day (record { year = 2024; month = 3; day = 1 })
      leap_day-IsDate refl

-- Only the year 2023 has assets.
abbrev in_2023 : DateRange → Bool
in_2023 r = r.start.year == 2023

-- The years of 2022 to 2024, each of which the server finds assets for.
abbrev years_listed : Service.Answer (List String) × Session
years_listed =
    years_between fs (date_range_has_assets fs false)
      (some (record may.start { year = 2022 }, may.start)) fresh

years_are_found : years_listed.0 ≡ Service.found ("2024" ∷ "2023" ∷ "2022" ∷ [])
unfolding years_between years_down year_names year_range date days_in_month is_leap decimal
    date_range_has_assets
years_are_found = refl

years_between_listed_example :
    "2024" ∷ "2023" ∷ "2022" ∷ []
    ≡ map decimal (
        keep
          (λ y. says_yes (date_range_has_assets fs false (year_days y) years_listed.1).0)
          (years_down 3 2024))
years_between_listed_example =
    years_between_listed fs (date_range_has_assets fs false) (record may.start { year = 2022 })
      may.start fresh ("2024" ∷ "2023" ∷ "2022" ∷ []) (date_has-Settled fs false) (omega arith)
      (omega arith) years_are_found years_listed.1 here

last_year_fails_example :
    years_between fs
      (λ r. done (in_2023 r))
      (some (may.start, record may.start { year = 9999 }))
      fresh
    ≡ (Service.other_error, fresh)
last_year_fails_example =
    last_year_fails fs (λ r. done (in_2023 r)) may.start (record may.start { year = 9999 }) fresh
      refl (omega arith)

abbrev name_of : Asset → String
name_of = asset_display_name provider formats

abbrev longer_of : Asset → String
longer_of = longer provider formats

first_name : name_of (asset "11111111-1" "first") ≡ "2024-05-01 09.04.05 a--11111111.jpg"
unfolding asset_display_name decimal safe_segment safe_chars is_unsafe replace_unsafe collapse
    lstrip_edges strip_edges short_id text_or split_slash text_of
first_name = refl

second_name : name_of (asset "2-2" "late") ≡ "2024-05-02 23.04.05 a--22.jpg"
unfolding asset_display_name decimal safe_segment safe_chars is_unsafe replace_unsafe collapse
    lstrip_edges strip_edges short_id text_or split_slash text_of
second_name = refl

third_name : name_of (asset "11111111-3" "first") ≡ "2024-05-01 09.04.05 a--11111111.jpg"
unfolding asset_display_name decimal safe_segment safe_chars is_unsafe replace_unsafe collapse
    lstrip_edges strip_edges short_id text_or split_slash text_of
third_name = refl

first_longer :
    longer_of (asset "11111111-1" "first") ≡ "2024-05-01 09.04.05 a--11111111--111111111.jpg"
unfolding asset_display_name decimal safe_segment safe_chars is_unsafe replace_unsafe collapse
    lstrip_edges strip_edges short_id text_or split_slash text_of longer_name stem path_name
first_longer = refl

second_longer : longer_of (asset "2-2" "late") ≡ "2024-05-02 23.04.05 a--22--22.jpg"
unfolding asset_display_name decimal safe_segment safe_chars is_unsafe replace_unsafe collapse
    lstrip_edges strip_edges short_id text_or split_slash text_of longer_name stem path_name
second_longer = refl

third_longer :
    longer_of (asset "11111111-3" "first") ≡ "2024-05-01 09.04.05 a--11111111--111111113.jpg"
unfolding asset_display_name decimal safe_segment safe_chars is_unsafe replace_unsafe collapse
    lstrip_edges strip_edges short_id text_or split_slash text_of longer_name stem path_name
third_longer = refl

texts_differ : (x y s t : String) → x ≡ s → y ≡ t → str_eq s t ≡ false → x ≢ y
texts_differ x y s t h k differ e = ground (arith, eq_iff s t)

-- The first and the third asset have one display name.
library-IsUnmixed : IsUnmixed provider formats library
library-IsUnmixed = (
  (
    (
      texts_differ _ _ _ _ first_longer second_longer refl,
      texts_differ _ _ _ _ first_longer second_name refl,
      texts_differ _ _ _ _ second_longer first_name refl,
    ),
    (
      (
        texts_differ _ _ _ _ first_longer third_longer refl,
        texts_differ _ _ _ _ first_longer third_name refl,
        texts_differ _ _ _ _ third_longer first_name refl,
      ),
      tt,
    ),
  ),
  (
    (
      (
        texts_differ _ _ _ _ second_longer third_longer refl,
        texts_differ _ _ _ _ second_longer third_name refl,
        texts_differ _ _ _ _ third_longer second_name refl,
      ),
      tt,
    ),
    (tt, tt),
  ),
)

matching_asset_opens_example :
    IsReachable fs everything false may fresh (asset "11111111-3" "first")
unfolding recall
matching_asset_opens_example =
    matching_asset_opens fs everything (client-IsPaged 2) (omega arith) (omega arith) false may
      fresh (asset "11111111-3" "first") refl (omega arith) library-IsUnmixed (inr (inr (inl refl)))
