-- ===== src/FsModel/Ranges.antt =====
-- src/immich_bridge/fs_model.py, `date_range_from_parts`: the ranges that paths are read as.
use immich_bridge.Prelude.{
  ℕ, ◌+◌, ◌≤◌, ◌<◌, ◌≡◌, ◌⊎◌, inl, inr, String, map, ◌&&◌, Option, none, some, List, [], ◌∷◌, arith,
  leb, ◌==◌, Option-cases, Bool-cases,
}
use immich_bridge.Json.{ℤ, pos, negsuc}
use immich_bridge.Text.{codes, split, parse_int}
use immich_bridge.FsModel.{
  Date, DateRange, days_in_month, date, next_day, year_range, month_range, month_of_texts,
  fromisoformat, day_range, range_of_segments, date_range_from_parts, range, month_end, iso_date,
  plain_number, year_value,
}

-- A day of the calendar, in the years that Python has.
pub record IsDate (t : Date) : Type 0 where
  pub year_pos : 1 ≤ t.year
  pub year_max : t.year ≤ 9999
  pub month_pos : 1 ≤ t.month
  pub month_max : t.month ≤ 12
  pub day_pos : 1 ≤ t.day
  pub day_max : t.day ≤ days_in_month t.year t.month

-- `a < b`, of dates
abbrev pub Earlier : Date → Date → Type 0
Earlier a b =
    (a.year < b.year)
    ⊎ (((a.year ≡ b.year) × (a.month < b.month))
        ⊎ ((a.year ≡ b.year) × (a.month ≡ b.month) × (a.day < b.day)))

pub record IsRange (r : DateRange) : Type 0 where
  pub start_valid : IsDate r.start
  pub end_valid : IsDate r.end
  pub nonempty : Earlier r.start r.end

date-IsDate :
    (y m d : ℕ) (t : Date)
    → date y m d ≡ some t
    → IsDate t × (t.year ≡ y) × (t.month ≡ m) × (t.day ≡ d)
unfolding date
date-IsDate y m d t h = ground arith

next_day-Earlier : (t u : Date) → next_day t ≡ some u → IsDate u × Earlier t u
unfolding next_day
next_day-Earlier t u h = ground (
  arith,
  date-IsDate t.year t.month (t.day + 1) u,
  date-IsDate t.year (t.month + 1) 1 u,
  date-IsDate (t.year + 1) 1 1 u,
)

year_range-IsRange : (y : Option ℕ) (r : DateRange) → year_range y ≡ some r → IsRange r
unfolding year_range
year_range-IsRange none r h = cc
year_range-IsRange (some y) r h =
    ground (arith, date-IsDate y 1 1 r.start, date-IsDate (y + 1) 1 1 r.end)

range_parts :
    (o p : Option Date) (r : DateRange) → range o p ≡ some r → (o ≡ some r.start) × (p ≡ some r.end)
range_parts none p r h = cc
range_parts (some s) none r h = cc
range_parts (some s) (some e) r h = (ground arith, ground arith)

month_end-Earlier :
    (y m : ℕ) (s e : Date)
    → s.year ≡ y
    → s.month ≡ m
    → month_end y m ≡ some e
    → IsDate e × Earlier s e
month_end-Earlier y m s e hy hm h = elim (Bool-cases (m == 12)) [
  | inl last ↦
      let (v, ey, em, ed) = date-IsDate (y + 1) 1 1 e (rw last at h) in (v, inl (omega arith))
  | inr other ↦
      let (v, ey, em, ed) = date-IsDate y (m + 1) 1 e (rw other at h) in
      (v, inr (inl (omega arith, omega arith)))
]

month_range-IsRange : (y m : ℤ) (r : DateRange) → month_range y m ≡ some r → IsRange r
unfolding month_range
month_range-IsRange (pos y) (pos m) r h = elim (Bool-cases (leb 1 m && leb m 12)) [
  | inl ok ↦
      let (hs, he) = range_parts (date y m 1) (month_end y m) r (rw ok at h) in
      let (v, ey, em, ed) = date-IsDate y m 1 r.start hs in
      let (w, before) = month_end-Earlier y m r.start r.end ey em he in
      record { start_valid = v; end_valid = w; nonempty = before }
  | inr bad ↦ absurd (ground arith)
]
month_range-IsRange (negsuc y) m r h = cc
month_range-IsRange (pos y) (negsuc m) r h = cc

month_of_texts-IsRange :
    (ts : List (List ℕ)) (r : DateRange) → month_of_texts ts ≡ some r → IsRange r
unfolding month_of_texts
month_of_texts-IsRange (y ∷ m ∷ []) r h = elim (Option-cases (parse_int y)) [
  | inl e ↦ absurd (ground arith)
  | inr (year, e) ↦ elim (Option-cases (parse_int m)) [
    | inl e' ↦ absurd (ground arith)
    | inr (month, e') ↦ month_range-IsRange year month r (ground arith)
  ]
]
month_of_texts-IsRange [] r h = cc
month_of_texts-IsRange (y ∷ []) r h = cc
month_of_texts-IsRange (y ∷ m ∷ t ∷ ts) r h = cc

iso_date-IsDate : (y m d : Option ℕ) (t : Date) → iso_date y m d ≡ some t → IsDate t
iso_date-IsDate (some y) (some m) (some d) t h = (date-IsDate y m d t (unfold iso_date in h)).0
iso_date-IsDate none m d t h = unfold iso_date in cc (h)
iso_date-IsDate (some y) none d t h = unfold iso_date in cc (h)
iso_date-IsDate (some y) (some m) none t h = unfold iso_date in cc (h)

fromisoformat-IsDate : (text : List ℕ) (t : Date) → fromisoformat text ≡ some t → IsDate t
unfolding fromisoformat
fromisoformat-IsDate (a ∷ b ∷ c ∷ d ∷ s ∷ e ∷ f ∷ u ∷ g ∷ k ∷ []) t h = ground (
  arith,
  iso_date-IsDate (plain_number (a ∷ b ∷ c ∷ d ∷ [])) (plain_number (e ∷ f ∷ []))
      (plain_number (g ∷ k ∷ [])) t,
)
fromisoformat-IsDate _ t h = cc

day_range-IsRange :
    (o : Option Date) (r : DateRange)
    → ((t : Date) → o ≡ some t → IsDate t)
    → day_range o ≡ some r
    → IsRange r
unfolding day_range
day_range-IsRange none r valid h = cc
day_range-IsRange (some start) r valid h =
    let (hs, he) = range_parts (some start) (next_day start) r h in
    let (w, before) = next_day-Earlier start r.end he in
    let e : start ≡ r.start = ground arith in
    record { start_valid = valid r.start hs; end_valid = w; nonempty = rw e at before }

-- Every range that path segments name is one of valid calendar dates, and it is not empty.
pub range_of_segments-IsRange :
    (segments : List (List ℕ)) (r : DateRange) → range_of_segments segments ≡ some r → IsRange r
unfolding range_of_segments
range_of_segments-IsRange [] r h = cc
range_of_segments-IsRange (y ∷ []) r h = ground (arith, year_range-IsRange (year_value y) r)
range_of_segments-IsRange (y ∷ m ∷ []) r h = ground (arith, month_of_texts-IsRange (split b'-' m) r)
range_of_segments-IsRange (y ∷ m ∷ d ∷ []) r h =
    ground (arith, day_range-IsRange (fromisoformat d) r (fromisoformat-IsDate d))
range_of_segments-IsRange (y ∷ m ∷ d ∷ x ∷ xs) r h = cc

-- The same of the parts of a path.
pub date_range_from_parts-IsRange :
    (parts : List String) (r : DateRange) → date_range_from_parts parts ≡ some r → IsRange r
unfolding date_range_from_parts
date_range_from_parts-IsRange [] r h = absurd (ground arith)
date_range_from_parts-IsRange (c ∷ parts) r h = range_of_segments-IsRange (map codes parts) r h
