-- ===== src/FsModel/Tests.antt =====
-- Concrete names of date folders.
use immich_bridge.Prelude.{◌≡◌, refl, some, [], ◌∷◌, arith}
use immich_bridge.FsModel.{
  Date, is_leap, days_in_month, date, next_day, range_of_segments, four_digits, month_name,
  day_name,
}
use immich_bridge.FsModel.Ranges.{IsDate}
use immich_bridge.FsModel.Names.{range_of_day_name}

abbrev leap_day : Date
leap_day = record { year = 2024; month = 2; day = 29 }

abbrev day_after : Date
day_after = record { year = 2024; month = 3; day = 1 }

leap_day-IsDate : IsDate leap_day
unfolding days_in_month is_leap
leap_day-IsDate = record {
  year_pos = omega arith;
  year_max = omega arith;
  month_pos = omega arith;
  month_max = omega arith;
  day_pos = omega arith;
  day_max = omega arith;
}

-- The day of 2024 in the folder of 1999.
range_of_day_name_example :
    range_of_segments (four_digits 1999 ∷ month_name 2024 2 ∷ day_name leap_day ∷ [])
    ≡ some (record { start = leap_day; end = day_after })
unfolding next_day date days_in_month is_leap
range_of_day_name_example =
    range_of_day_name 1999 leap_day day_after (omega arith) leap_day-IsDate refl
