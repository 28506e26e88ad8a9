-- ===== src/FsModel.antt =====
-- src/immich_bridge/fs_model.py: dates and the names of date and hour buckets.
pub mod Names
pub mod Ranges
mod Tests
use immich_bridge.Prelude.{
  ℕ, zero, suc, ◌+◌, ◌*◌, ◌%◌, ◌/◌, String, Bool, true, false, not, ◌&&◌, ◌||◌, Option, none, some,
  List, [], ◌∷◌, ◌++◌, map, length, take, ltb, leb, ◌==◌, if◌then◌else◌,
}
use immich_bridge.Json.{ℤ, pos, negsuc}
use immich_bridge.Text.{
  codes, is_digit, isdigit, startswith, split, parse_int, digits_value, all_digits,
}
use immich_bridge.Text.Digits.{digit}
use mathlib.Core.Option

-- `datetime.date`
pub record Date : Type 0 where
  pub year : ℕ
  pub month : ℕ
  pub day : ℕ

pub record DateRange : Type 0 where
  pub start : Date
  pub end : Date

pub record HourRange : Type 0 where
  pub day : Date
  pub hour : ℕ

unfoldable pub is_leap : ℕ → Bool
is_leap y = (y % 4 == 0) && (not (y % 100 == 0) || (y % 400 == 0))

unfoldable pub days_in_month : ℕ → ℕ → ℕ
unfolding is_leap
days_in_month y m =
    if (m == 4) || (m == 6) || (m == 9) || (m == 11)
    then 30
    else if m == 2
    then 28 + (if is_leap y then 1 else 0)
    else 31

-- `date(year, month, day)`; `none` is the `ValueError`
unfoldable pub date : ℕ → ℕ → ℕ → Option Date
date y m d =
    if leb 1 y && leb y 9999 && leb 1 m && leb m 12 && leb 1 d && leb d (days_in_month y m)
    then some (record { year = y; month = m; day = d })
    else none

-- `date.fromordinal(day.toordinal() + 1)`: the day after, of which 9999-12-31 has none
unfoldable pub next_day : Date → Option Date
next_day t =
    if ltb t.day (days_in_month t.year t.month)
    then date t.year t.month (t.day + 1)
    else if ltb t.month 12
    then date t.year (t.month + 1) 1
    else date (t.year + 1) 1 1

-- `DateRange(start, end)`, where either date may be a `ValueError`
abbrev pub range : Option Date → Option Date → Option DateRange
range none _ = none
range (some s) none = none
range (some s) (some e) = some (record { start = s; end = e })

-- `int(text)` of four digits
abbrev pub year_value : List ℕ → Option ℕ
year_value text = digits_value false 0 text

unfoldable pub year_range : Option ℕ → Option DateRange
year_range none = none
year_range (some y) = range (date y 1 1) (date (y + 1) 1 1)

-- The month after.
abbrev pub month_end : ℕ → ℕ → Option Date
month_end y m = if m == 12 then date (y + 1) 1 1 else date y (m + 1) 1

unfoldable pub month_range : ℤ → ℤ → Option DateRange
month_range (pos y) (pos m) =
    if leb 1 m && leb m 12 then range (date y m 1) (month_end y m) else none
month_range _ _ = none

-- `year, month = [int(value) for value in text.split("-")]`, and the range of that month
unfoldable pub month_of_texts : List (List ℕ) → Option DateRange
month_of_texts (y ∷ m ∷ []) = elim (parse_int y) [
  | none ↦ none
  | some year ↦ elim (parse_int m) [ none ↦ none | some month ↦ month_range year month ]
]
month_of_texts _ = none

-- The number of a text that holds digits only.
abbrev pub plain_number : List ℕ → Option ℕ
plain_number text = if isdigit text then digits_value false 0 text else none

pub iso_date : Option ℕ → Option ℕ → Option ℕ → Option Date
iso_date (some y) (some m) (some d) = date y m d
iso_date _ _ _ = none

-- `date.fromisoformat(text)` of ten characters, the eighth of them `-`: YYYY-MM-DD
pub fromisoformat : List ℕ → Option Date
fromisoformat (a ∷ b ∷ c ∷ d ∷ s ∷ e ∷ f ∷ t ∷ g ∷ h ∷ []) =
    if (s == b'-') && (t == b'-')
    then iso_date (plain_number (a ∷ b ∷ c ∷ d ∷ [])) (plain_number (e ∷ f ∷ []))
        (plain_number (g ∷ h ∷ []))
    else none
fromisoformat _ = none

pub day_range : Option Date → Option DateRange
day_range none = none
day_range (some start) = range (some start) (next_day start)

-- The segments below the collection's own.
unfoldable pub range_of_segments : List (List ℕ) → Option DateRange
range_of_segments (y ∷ []) =
    if (length y == 4) && isdigit y then year_range (year_value y) else none
range_of_segments (y ∷ m ∷ []) =
    if (length y == 4) && isdigit y && (length m == 7) && startswith m (y ++ b'-' ∷ [])
    then month_of_texts (split b'-' m)
    else none
range_of_segments (y ∷ m ∷ d ∷ []) =
    if (length y == 4)
      && isdigit y
      && (length m == 7)
      && (length d == 10)
      && startswith d (m ++ b'-' ∷ [])
    then day_range (fromisoformat d)
    else none
range_of_segments _ = none

-- The first part, the collection, is not looked at.
unfoldable pub date_range_from_parts : List String → Option DateRange
date_range_from_parts [] = none
date_range_from_parts (collection ∷ parts) = range_of_segments (map codes parts)

pub hour_of_text : List ℕ → Option ℕ
hour_of_text text =
    if (length text == 2) && isdigit text
    then elim (digits_value false 0 text) [
      | none ↦ none
      | some hour ↦ if leb hour 23 then some hour else none
    ]
    else none

abbrev hour_range : Option DateRange → Option ℕ → Option HourRange
hour_range none _ = none
hour_range (some r) none = none
hour_range (some r) (some hour) = some (record { day = r.start; hour = hour })

pub hour_range_from_parts : List String → Option HourRange
hour_range_from_parts (c ∷ y ∷ m ∷ d ∷ h ∷ []) =
    hour_range (date_range_from_parts (c ∷ y ∷ m ∷ d ∷ [])) (hour_of_text (codes h))
hour_range_from_parts _ = none

-- `f"{n:02d}"` and `f"{n:04d}"`, of numbers that fit
unfoldable pub two_digits : ℕ → List ℕ
two_digits n = digit (n / 10) ∷ digit (n % 10) ∷ []

unfoldable pub four_digits : ℕ → List ℕ
four_digits n = digit (n / 1000) ∷ digit (n / 100 % 10) ∷ digit (n / 10 % 10) ∷ digit (n % 10) ∷ []

-- `f"{year:04d}-{month:02d}"`
unfoldable pub month_name : ℕ → ℕ → List ℕ
unfolding two_digits four_digits
month_name y m = four_digits y ++ (b'-' ∷ two_digits m)

-- `day.isoformat()`
unfoldable pub day_name : Date → List ℕ
unfolding month_name two_digits
day_name t = month_name t.year t.month ++ (b'-' ∷ two_digits t.day)
