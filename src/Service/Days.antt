-- ===== src/Service/Days.antt =====
-- src/immich_bridge/fs_service.py: the day folders that are listed, and how their paths are read.
use immich_bridge.Prelude.{
  ℕ, Bool, ◌/◌, ◌%◌, ◌<◌, ◌≤◌, ◌==◌, length, ltb, none, false, inl, inr, Bool-cases, if◌then◌else◌,
  ◌≡◌, ◌↔◌, refl, ap, String, some, List, [], ◌∷◌, map, arith, concat,
}
use immich_bridge.Json.{Fields}
use immich_bridge.Text.{codes}
use immich_bridge.Text.Decimals.{
  codes-concat, codes-digit_text, codes-decimal_four, length-decimal_short,
}
use immich_bridge.FsModel.{
  Date, next_day, date_range_from_parts, two_digits, four_digits, month_name, day_name,
  range_of_segments,
}
use immich_bridge.FsModel.Ranges.{IsDate}
use immich_bridge.FsModel.Names.{range_of_day_name, days_le}
use immich_bridge.Provider.{Asset}
use immich_bridge.Provider.Views.{digit_text, decimal}
use immich_bridge.Assets.{two_digit_text, four_digit_text, month_text, isoformat}
use immich_bridge.Service.{found, ImmichFilesystem, Session, done}
use immich_bridge.Service.Memo.{date_of}
use immich_bridge.Service.Buckets.{search_all_assets, days_of, day_names}
use immich_bridge.Service.Recalls.{and_then_found}
use immich_bridge.Service.Sets.{date_before, sorted_set}
use immich_bridge.Service.Sets.Laws.{
  In, IsChain, sorted_set-IsChain, In-sorted_set, date_before_same,
}

-- `a > b`, of dates
abbrev pub newer : Date → Date → Bool
newer a b = date_before b a

codes-two_digit_text : (n : ℕ) → n < 100 → codes (two_digit_text n) ≡ two_digits n
unfolding two_digit_text two_digits
codes-two_digit_text n h =
    rw
      (
        codes-concat (digit_text (n / 10)) (digit_text (n % 10)),
        codes-digit_text (n / 10) (omega arith),
        codes-digit_text (n % 10) (omega arith),
      )
      refl

codes-four_digit_text : (n : ℕ) → n < 10000 → codes (four_digit_text n) ≡ four_digits n
unfolding four_digit_text two_digits four_digits
codes-four_digit_text n h =
    let a : n / 100 / 10 ≡ n / 1000 = omega arith in
    let b : n % 100 / 10 ≡ n / 10 % 10 = omega arith in
    let c : n % 100 % 10 ≡ n % 10 = omega arith in
    rw
      (
        codes-concat (two_digit_text (n / 100)) (two_digit_text (n % 100)),
        codes-two_digit_text (n / 100) (omega arith),
        codes-two_digit_text (n % 100) (omega arith),
        a,
        b,
        c,
      )
      refl

codes-month_text : (y m : ℕ) → y < 10000 → m < 100 → codes (month_text y m) ≡ month_name y m
unfolding month_text month_name
codes-month_text y m hy hm =
    rw
      (
        codes-concat (four_digit_text y) (concat "-" (two_digit_text m)),
        codes-four_digit_text y hy,
        codes-two_digit_text m hm,
      )
      refl

codes-isoformat : (t : Date) → IsDate t → codes (isoformat t) ≡ day_name t
unfolding isoformat day_name
codes-isoformat t v =
    let small : t.day < 100 = omega (arith, v.day_max, days_le t.year t.month) in
    rw
      (
        codes-concat (month_text t.year t.month) (concat "-" (two_digit_text t.day)),
        codes-month_text t.year t.month (omega (arith, v.year_max)) (omega (arith, v.month_max)),
        codes-two_digit_text t.day small,
      )
      refl

-- The path of a day folder, below any collection: the year's, the month's and the day's names as
-- they are listed, the year's without leading zeros.
abbrev pub day_path : String → Date → List String
day_path collection t = collection ∷ decimal t.year ∷ month_text t.year t.month ∷ isoformat t ∷ []

full_year_opens :
    (collection : String) (t u : Date)
    → 1000 ≤ t.year
    → IsDate t
    → next_day t ≡ some u
    → date_range_from_parts (day_path collection t) ≡ some (record { start = t; end = u })
unfolding date_range_from_parts
full_year_opens collection t u full v after =
    let year : codes (decimal t.year) ≡ four_digits t.year =
      unfold four_digits in codes-decimal_four t.year full (omega (arith, v.year_max)) in
    rw
      (
        year,
        codes-month_text t.year t.month (omega (arith, v.year_max)) (omega (arith, v.month_max)),
        codes-isoformat t v,
      )
      (range_of_day_name t.year t u (omega (arith, v.year_max)) v after)

short_year_fails : (y m d : List ℕ) → length y ≤ 3 → range_of_segments (y ∷ m ∷ d ∷ []) ≡ none
unfolding range_of_segments
short_year_fails y m d h = let short : (length y == 4) ≡ false = ground arith in rw short refl

-- The path that the listed names of a calendar day make, in any collection, is read as exactly that
-- day, if there is a day after it and its year is 1000 or later. The years before 1000 are listed
-- with fewer than four digits, and the paths of their days are read as nothing.
pub listed_day_opens :
    (collection : String) (t u : Date)
    → IsDate t
    → next_day t ≡ some u
    → date_range_from_parts (day_path collection t)
      ≡ (if ltb t.year 1000 then none else some (record { start = t; end = u }))
unfolding date_range_from_parts
listed_day_opens collection t u v after = elim (Bool-cases (ltb t.year 1000)) [
  | inl early ↦
      rw early
        (short_year_fails (codes (decimal t.year)) _ _ (length-decimal_short t.year (ground arith)))
  | inr full ↦ rw full (full_year_opens collection t u (ground arith) v after)
]

module _ (fs : ImmichFilesystem) where
  -- The days of a search's assets, as a listing should have them.
  pub record IsListed (names : List String) (assets : List Asset) : Type 0 where
    pub days : List Date
    pub printed : names ≡ map isoformat days
    pub newest_first : IsChain newer days
    pub exact : (t : Date) → In t days ↔ In t (map (date_of fs) assets)

  day_names-IsListed : (assets : List Asset) → IsListed (day_names fs assets) assets
  unfolding day_names
  day_names-IsListed assets = record {
    days = sorted_set newer (map (date_of fs) assets);
    printed = refl;
    newest_first = sorted_set-IsChain newer (map (date_of fs) assets);
    exact =
        λ t. In-sorted_set newer (λ a b h k. date_before_same a b k h) t (map (date_of fs) assets);
  }

  -- Where the search of a listing of days gives assets, the listing names exactly the days on which
  -- an asset was taken, each once, the newest first.
  pub days_of-IsListed :
      (filters : Fields) (s : Session) (assets : List Asset)
      → (search_all_assets fs filters s).0 ≡ found assets
      → (names : List String) × ((days_of fs filters s).0 ≡ found names) × IsListed names assets
  unfolding days_of
  days_of-IsListed filters s assets e = (
    day_names fs assets,
    ap (λ r. r.0)
        (and_then_found (search_all_assets fs filters s) (λ a. done (day_names fs a)) assets e),
    day_names-IsListed assets,
  )
