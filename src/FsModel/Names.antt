-- ===== src/FsModel/Names.antt =====
-- src/immich_bridge/fs_model.py, `date_range_from_parts`: the names of years, months and days.
use immich_bridge.Prelude.{
  ℕ, ◌+◌, ◌*◌, ◌/◌, ◌%◌, ◌≤◌, ◌<◌, ◌≡◌, refl, true, false, some, List, [], ◌∷◌, ◌++◌, arith, length,
  ◌==◌, if◌then◌else◌,
}
use immich_bridge.Json.{pos}
use immich_bridge.Text.{isdigit, startswith, split, parse_int, digits_value}
use immich_bridge.Text.Digits.{
  is_digit-digit, digit-ne, digits_value_two, digits_value_four, parse_int_two, parse_int_four,
}
use immich_bridge.FsModel.{
  Date, days_in_month, date, next_day, year_range, month_range, month_of_texts, fromisoformat,
  day_range, range_of_segments, iso_date, plain_number, two_digits, four_digits, month_name,
  day_name,
}
use immich_bridge.FsModel.Ranges.{IsDate}

digits_join : (y : ℕ) → ((y / 1000 * 10 + y / 100 % 10) * 10 + y / 10 % 10) * 10 + y % 10 ≡ y
digits_join y = omega arith

plain_four : (y : ℕ) → y < 10000 → plain_number (four_digits y) ≡ some y
unfolding four_digits
plain_four y h = rw (
  is_digit-digit (y / 1000) (omega arith),
  is_digit-digit (y / 100 % 10) (omega arith),
  is_digit-digit (y / 10 % 10) (omega arith),
  is_digit-digit (y % 10) (omega arith),
  digits_value_four (y / 1000) (y / 100 % 10) (y / 10 % 10) (y % 10) (omega arith) (omega arith)
      (omega arith) (omega arith),
  digits_join y,
)

isdigit_four : (y : ℕ) → y < 10000 → isdigit (four_digits y) ≡ true
unfolding four_digits
isdigit_four y h = rw (
  is_digit-digit (y / 1000) (omega arith),
  is_digit-digit (y / 100 % 10) (omega arith),
  is_digit-digit (y / 10 % 10) (omega arith),
  is_digit-digit (y % 10) (omega arith),
)

value_four : (y : ℕ) → y < 10000 → digits_value false 0 (four_digits y) ≡ some y
unfolding four_digits
value_four y h = rw (
  digits_value_four (y / 1000) (y / 100 % 10) (y / 10 % 10) (y % 10) (omega arith) (omega arith)
      (omega arith) (omega arith),
  digits_join y,
)

parse_four : (y : ℕ) → y < 10000 → parse_int (four_digits y) ≡ some (pos y)
unfolding four_digits
parse_four y h = rw (
  parse_int_four (y / 1000) (y / 100 % 10) (y / 10 % 10) (y % 10) (omega arith) (omega arith)
      (omega arith) (omega arith),
  digits_join y,
)

parse_two : (m : ℕ) → m < 100 → parse_int (two_digits m) ≡ some (pos m)
unfolding two_digits
parse_two m h =
    let e : m / 10 * 10 + m % 10 ≡ m = omega arith in
    rw (parse_int_two (m / 10) (m % 10) (omega arith) (omega arith), e)

plain_two : (m : ℕ) → m < 100 → plain_number (two_digits m) ≡ some m
unfolding two_digits
plain_two m h =
    let e : m / 10 * 10 + m % 10 ≡ m = omega arith in
    rw (
      is_digit-digit (m / 10) (omega arith),
      is_digit-digit (m % 10) (omega arith),
      digits_value_two (m / 10) (m % 10) (omega arith) (omega arith),
      e,
    )

split-month_name :
    (y m : ℕ)
    → y < 10000
    → m < 100
    → split b'-' (month_name y m) ≡ four_digits y ∷ two_digits m ∷ []
unfolding month_name split
split-month_name y m hy hm = rw (
  digit-ne (y / 1000) b'-' (omega arith) (omega arith),
  digit-ne (y / 100 % 10) b'-' (omega arith) (omega arith),
  digit-ne (y / 10 % 10) b'-' (omega arith) (omega arith),
  digit-ne (y % 10) b'-' (omega arith) (omega arith),
  digit-ne (m / 10) b'-' (omega arith) (omega arith),
  digit-ne (m % 10) b'-' (omega arith) (omega arith),
)

length-four_digits : (y : ℕ) → length (four_digits y) ≡ 4
unfolding four_digits
length-four_digits y = refl

length-month_name : (y m : ℕ) → length (month_name y m) ≡ 7
unfolding month_name
length-month_name y m = refl

length-day_name : (t : Date) → length (day_name t) ≡ 10
unfolding day_name
length-day_name t = refl

startswith_prefix : (p s : List ℕ) → startswith (p ++ s) p ≡ true
startswith_prefix [] s = refl
startswith_prefix (c ∷ p) s = ground (arith, startswith_prefix p s)

month_starts : (y m : ℕ) → startswith (month_name y m) (four_digits y ++ b'-' ∷ []) ≡ true
unfolding month_name
month_starts y m = startswith_prefix (four_digits y ++ b'-' ∷ []) (two_digits m)

day_starts : (t : Date) → startswith (day_name t) (month_name t.year t.month ++ b'-' ∷ []) ≡ true
unfolding day_name
day_starts t = startswith_prefix (month_name t.year t.month ++ b'-' ∷ []) (two_digits t.day)

one_le_days : (y m : ℕ) → 1 ≤ days_in_month y m
unfolding days_in_month
one_le_days y m = ground arith

date_of_valid : (t : Date) → IsDate t → date t.year t.month t.day ≡ some t
unfolding date
date_of_valid t v = ground arith

first_of_month :
    (y m : ℕ)
    → 1 ≤ y
    → y ≤ 9999
    → 1 ≤ m
    → m ≤ 12
    → date y m 1 ≡ some (record { year = y; month = m; day = 1 })
first_of_month y m a b c d =
    date_of_valid (record { year = y; month = m; day = 1 })
      (record {
        year_pos = a;
        year_max = b;
        month_pos = c;
        month_max = d;
        day_pos = omega arith;
        day_max = one_le_days y m;
      })

-- The name of a year from 1 to 9998, zero-padded, is read as that whole year.
pub range_of_year_name :
    (y : ℕ)
    → 1 ≤ y
    → y < 9999
    → range_of_segments (four_digits y ∷ [])
      ≡ some (record {
        start = record { year = y; month = 1; day = 1 };
        end = record { year = y + 1; month = 1; day = 1 };
      })
unfolding range_of_segments
range_of_year_name y lo hi =
    rw (length-four_digits y, isdigit_four y (omega arith), value_four y (omega arith))
      (unfold year_range in
        rw (
          first_of_month y 1 lo (omega arith) (omega arith) (omega arith),
          first_of_month (y + 1) 1 (omega arith) (omega arith) (omega arith) (omega arith),
        ))

-- The first day of the month after.
abbrev pub next_month : ℕ → ℕ → Date
next_month y m =
    if m == 12
    then record { year = y + 1; month = 1; day = 1 }
    else record { year = y; month = m + 1; day = 1 }

month_range_lem :
    (y m : ℕ)
    → 1 ≤ y
    → y < 9999
    → 1 ≤ m
    → m ≤ 12
    → month_range (pos y) (pos m)
      ≡ some (record { start = record { year = y; month = m; day = 1 }; end = next_month y m })
unfolding month_range
month_range_lem y m lo hi mlo mhi =
    ground (arith, first_of_month y m, first_of_month y (m + 1), first_of_month (y + 1) 1)

month_texts_lem :
    (y m : ℕ)
    → 1 ≤ y
    → y < 9999
    → 1 ≤ m
    → m ≤ 12
    → month_of_texts (four_digits y ∷ two_digits m ∷ [])
      ≡ some (record { start = record { year = y; month = m; day = 1 }; end = next_month y m })
unfolding month_of_texts
month_texts_lem y m lo hi mlo mhi =
    rw (parse_four y (omega arith), month_of_texts, parse_two m (omega arith))
      (month_range_lem y m lo hi mlo mhi)

-- In the folder of its year, from 1 to 9998, the name of a month is read as exactly that month.
pub range_of_month_name :
    (y m : ℕ)
    → 1 ≤ y
    → y < 9999
    → 1 ≤ m
    → m ≤ 12
    → range_of_segments (four_digits y ∷ month_name y m ∷ [])
      ≡ some (record { start = record { year = y; month = m; day = 1 }; end = next_month y m })
unfolding range_of_segments
range_of_month_name y m lo hi mlo mhi =
    rw
      (
        length-four_digits y,
        isdigit_four y (omega arith),
        length-month_name y m,
        month_starts y m,
        split-month_name y m (omega arith) (omega arith),
      )
      (month_texts_lem y m lo hi mlo mhi)

pub days_le : (y m : ℕ) → days_in_month y m ≤ 31
unfolding days_in_month
days_le y m = ground arith

day_name_parts :
    (t : Date)
    → fromisoformat (day_name t)
      ≡ iso_date
          (plain_number (four_digits t.year))
          (plain_number (two_digits t.month))
          (plain_number (two_digits t.day))
unfolding fromisoformat day_name
day_name_parts t = refl

fromisoformat_name : (t : Date) → IsDate t → fromisoformat (day_name t) ≡ some t
unfolding iso_date
fromisoformat_name t v =
    rw
      (
        day_name_parts t,
        plain_four t.year (omega arith),
        plain_two t.month (omega arith),
        plain_two t.day (omega (arith, days_le t.year t.month)),
      )
      (date_of_valid t v)

-- The name of a day that has a day after it, in its month's folder, is read as exactly that day,
-- whatever four digits name the year's folder above.
pub range_of_day_name :
    (folder : ℕ) (t u : Date)
    → folder < 10000
    → IsDate t
    → next_day t ≡ some u
    → range_of_segments (four_digits folder ∷ month_name t.year t.month ∷ day_name t ∷ [])
      ≡ some (record { start = t; end = u })
unfolding range_of_segments
range_of_day_name folder t u small v after =
    rw
      (
        length-four_digits folder,
        isdigit_four folder small,
        length-month_name t.year t.month,
        length-day_name t,
        day_starts t,
        fromisoformat_name t v,
      )
      (unfold day_range in rw after)
