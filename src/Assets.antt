-- ===== src/Assets.antt =====
-- src/immich_bridge/fs_model.py: the times that Immich is asked about, when an asset was taken, and the
-- names of the files of a folder.
pub mod Entries
pub mod Collisions
use immich_bridge.Prelude.{
  ℕ, zero, suc, ◌+◌, ◌-◌, ◌*◌, ◌/◌, ◌%◌, String, Bool, true, false, not, ◌&&◌, ◌||◌, Option, none,
  some, List, [], ◌∷◌, ◌==◌, ltb, keep, if◌then◌else◌, str_eq, concat,
}
use immich_bridge.Json.{Value, Fields, str, get, truthy}
use immich_bridge.Dict.{Dict, lookup, insert}
use immich_bridge.FsModel.{Date, HourRange, days_in_month, next_day}
use immich_bridge.Segment.{safe_segment}
use immich_bridge.Paths.{split_slash}
use immich_bridge.Provider.{Provider, Asset, text_of}
use immich_bridge.Provider.Views.{text_or, digit_text, decimal}
use immich_bridge.Provider.Writes.{suffix, has_code}
use immich_bridge.Albums.{short_id}
use Prim.Native.Char.{code}
use Prim.Native.String.{compare}
use text.Mathlib.Text.{is_le}
use mathlib.Core.Option

-- `text or fallback`
abbrev or_text : String → String → String
or_text text fallback = if str_eq text "" then fallback else text

-- The parts of an f-string.
abbrev joined : List String → String
joined [] = ""
joined (s ∷ ss) = concat s (joined ss)

-- `f"{n:02d}"` and `f"{n:04d}"`, of numbers that fit
unfoldable pub two_digit_text : ℕ → String
two_digit_text n = concat (digit_text (n / 10)) (digit_text (n % 10))

unfoldable pub four_digit_text : ℕ → String
unfolding two_digit_text
four_digit_text n = concat (two_digit_text (n / 100)) (two_digit_text (n % 100))

-- `f"{year:04d}-{month:02d}"`
unfoldable pub month_text : ℕ → ℕ → String
unfolding four_digit_text two_digit_text
month_text y m = concat (four_digit_text y) (concat "-" (two_digit_text m))

-- `day.isoformat()`
unfoldable pub isoformat : Date → String
unfolding month_text two_digit_text
isoformat t = concat (month_text t.year t.month) (concat "-" (two_digit_text t.day))

-- `datetime.combine(day, time(hour, 0), tzinfo=timezone.utc).isoformat()`, with `Z` for the zone
unfoldable pub iso_hour : Date → ℕ → String
unfolding isoformat two_digit_text
iso_hour t hour = concat (isoformat t) (concat "T" (concat (two_digit_text hour) ":00:00Z"))

unfoldable pub iso_boundary : Date → String
unfolding iso_hour
iso_boundary t = iso_hour t 0

unfoldable pub start_iso : HourRange → String
unfolding iso_hour
start_iso r = iso_hour r.day r.hour

-- `none` is the `ValueError` of a day that has no day after it.
unfoldable pub end_iso : HourRange → Option String
unfolding iso_boundary iso_hour
end_iso r =
    if r.hour == 23
    then Option.map iso_boundary (next_day r.day)
    else some (iso_hour r.day (r.hour + 1))

-- `datetime.datetime`. The offset of its zone from UTC is in seconds, with a day added.
pub record Moment : Type 0 where
  pub date : Date
  pub hour : ℕ
  pub minute : ℕ
  pub second : ℕ
  pub microsecond : ℕ
  pub utc_offset : Option ℕ

-- What is taken from outside: the readers of ISO dates, and `mimetypes` and `str.lower`.
pub record Formats : Type 0 where
  pub datetime_fromisoformat : String → Option Moment
  pub date_fromisoformat : String → Option Date
  pub guess_extension : String → Option String
  pub lower : String → String

abbrev utc : ℕ
utc = 86400

-- `f"{text[:-1]}+00:00"` of a text that ends in `Z`, any other text as it is
unfoldable pub with_utc_suffix : String → String
with_utc_suffix String.[] = ""
with_utc_suffix (String.◌∷◌ c s) =
    let rest = with_utc_suffix s in
    if str_eq s "" && (code c == b'Z') then "+00:00" else String.◌∷◌ c rest

-- `parsed.replace(tzinfo=timezone.utc)` of a time without a zone
abbrev aware : Moment → Moment
aware m = record m { utc_offset = some (Option.get_or m.utc_offset utc) }

abbrev epoch : Moment
epoch = record {
  date = record { year = 1970; month = 1; day = 1 };
  hour = 0;
  minute = 0;
  second = 0;
  microsecond = 0;
  utc_offset = some utc;
}

-- `date.toordinal()`
unfoldable pub days_through : ℕ → ℕ → ℕ
days_through y zero = 0
days_through y (suc m) = days_through y m + days_in_month y (suc m)

unfoldable pub toordinal : Date → ℕ
unfolding days_through
toordinal t =
    let y = t.year - 1 in
    y * 365 + y / 4 - y / 100 + y / 400 + days_through t.year (t.month - 1) + t.day

-- The microseconds of the clock that a time was read from.
unfoldable pub clock_time : Moment → ℕ
unfolding toordinal
clock_time m =
    (((toordinal m.date * 24 + m.hour) * 60 + m.minute) * 60 + m.second) * 1000000 + m.microsecond

abbrev offset_time : Moment → ℕ
offset_time m = Option.get_or m.utc_offset utc * 1000000

-- `a < b`, of times with zones
unfoldable pub earlier : Moment → Moment → Bool
unfolding clock_time
earlier a b = ltb (clock_time a + offset_time b) (clock_time b + offset_time a)

-- `a < b`, of texts
abbrev pub text_before : String → String → Bool
text_before s t = not (is_le (compare t s))

-- `path.name` of `PurePosixPath(text)`: the last part that is neither empty nor a dot
abbrev last_part : String → List String → String
last_part name [] = name
last_part name (part ∷ parts) = last_part part parts

unfoldable pub path_name : String → String
path_name text =
    last_part "" (keep (λ part. not (str_eq part "" || str_eq part ".")) (split_slash text))

-- The text before the last dot.
abbrev before_last_dot : String → String
before_last_dot String.[] = ""
before_last_dot (String.◌∷◌ c s) =
    let rest = before_last_dot s in
    if (code c == b'.') && not (has_code b'.' s) then "" else String.◌∷◌ c rest

-- `PurePosixPath(name).stem`
unfoldable pub stem : String → String
unfolding suffix
stem name = if str_eq (suffix name) "" then name else before_last_dot name

abbrev take_text : ℕ → String → String
take_text zero s = ""
take_text (suc n) String.[] = ""
take_text (suc n) (String.◌∷◌ c s) = String.◌∷◌ c (take_text n s)

-- `text[:10]`
unfoldable pub first_ten : String → String
first_ten = take_text 10

module _ (p : Provider) (f : Formats) where
  unfoldable pub parse_immich_datetime : Value → Option Moment
  unfolding text_of with_utc_suffix
  parse_immich_datetime value =
      if truthy value
      then Option.map aware (f.datetime_fromisoformat (with_utc_suffix (text_of p value)))
      else none

  -- The first time among the values of the keys.
  unfoldable pub first_moment : Asset → List String → Moment
  unfolding parse_immich_datetime
  first_moment asset [] = epoch
  first_moment asset (key ∷ keys) =
      let rest = first_moment asset keys in
      elim (parse_immich_datetime (get asset key)) [ none ↦ rest | some parsed ↦ parsed ]

  unfoldable pub asset_datetime : Asset → Moment
  unfolding first_moment
  asset_datetime asset = first_moment asset ("localDateTime" ∷ "fileCreatedAt" ∷ "createdAt" ∷ [])

  unfoldable pub month_bucket_date : Fields → Option Date
  unfolding text_of first_ten
  month_bucket_date bucket =
      let value = get bucket "timeBucket" in
      if truthy value then f.date_fromisoformat (first_ten (text_of p value)) else none

  -- `when.strftime("%Y-%m-%d %H.%M.%S")`; `%Y` has no padding
  unfoldable pub strftime : Moment → String
  unfolding two_digit_text
  strftime m = joined (
      decimal m.date.year
      ∷ "-"
      ∷ two_digit_text m.date.month
      ∷ "-"
      ∷ two_digit_text m.date.day
      ∷ " "
      ∷ two_digit_text m.hour
      ∷ "."
      ∷ two_digit_text m.minute
      ∷ "."
      ∷ two_digit_text m.second
      ∷ [])

  unfoldable pub original_name : Asset → String
  unfolding text_or
  original_name asset =
      text_or p (get asset "originalFileName")
        (concat (or_text (text_or p (get asset "id") "") "asset") ".bin")

  unfoldable pub asset_suffix : Asset → String
  unfolding original_name suffix path_name text_or
  asset_suffix asset =
      let suffix = f.lower (suffix (path_name (original_name asset))) in
      if str_eq suffix ""
      then (or_text
          (Option.get_or (f.guess_extension (text_or p (get asset "originalMimeType") "")) "")
          ".bin")
      else suffix

  unfoldable pub asset_stem : Asset → String
  unfolding original_name stem path_name
  asset_stem asset =
      let stem = stem (path_name (original_name asset)) in
      safe_segment (or_text stem "asset") "asset" 90

  unfoldable pub asset_display_name : Asset → String
  unfolding asset_datetime strftime asset_stem asset_suffix short_id text_or
  asset_display_name asset = joined (
      strftime (asset_datetime asset)
      ∷ " "
      ∷ asset_stem asset
      ∷ "--"
      ∷ short_id p (str (text_or p (get asset "id") "")) 8
      ∷ asset_suffix asset
      ∷ [])

  -- The order of the sort keys of two assets.
  unfoldable pub sorts_before : Asset → Asset → Bool
  unfolding asset_datetime earlier text_or
  sorts_before a b =
      let first = p.casefold (text_or p (get a "originalFileName") "") in
      let second = p.casefold (text_or p (get b "originalFileName") "") in
      if earlier (asset_datetime a) (asset_datetime b)
      then true
      else if earlier (asset_datetime b) (asset_datetime a)
      then false
      else if text_before first second
      then true
      else if text_before second first
      then false
      else is_le (compare (text_or p (get a "id") "") (text_or p (get b "id") ""))

  -- `sorted(assets, key=...)`, which is stable
  unfoldable pub insert_asset : Asset → List Asset → List Asset
  unfolding sorts_before
  insert_asset a [] = a ∷ []
  insert_asset a (x ∷ xs) =
      let rest = insert_asset a xs in if sorts_before a x then a ∷ x ∷ xs else x ∷ rest

  unfoldable pub sorted_assets : List Asset → List Asset
  unfolding insert_asset
  sorted_assets [] = []
  sorted_assets (a ∷ rest) = insert_asset a (sorted_assets rest)

  -- The name of an asset whose first name is taken.
  unfoldable pub longer_name : Asset → String → String
  unfolding stem path_name suffix short_id
  longer_name asset name =
      joined (
        stem (path_name name)
        ∷ "--"
        ∷ short_id p (get asset "id") 12
        ∷ suffix (path_name name)
        ∷ [])

  unfoldable pub entry_name : Dict Asset → Asset → String
  unfolding asset_display_name longer_name lookup
  entry_name entries asset = elim (lookup (asset_display_name asset) entries) [
    | none ↦ asset_display_name asset
    | some other ↦ longer_name asset (asset_display_name asset)
  ]

  unfoldable pub add_entries : Dict Asset → List Asset → Dict Asset
  unfolding entry_name insert
  add_entries entries [] = entries
  add_entries entries (asset ∷ assets) =
      add_entries (insert (entry_name entries asset) asset entries) assets

  unfoldable pub asset_entries : List Asset → Dict Asset
  unfolding sorted_assets add_entries
  asset_entries assets = add_entries [] (sorted_assets assets)
