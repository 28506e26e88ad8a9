-- ===== src/Service/Years.antt =====
-- src/immich_bridge/fs_service.py: the year folders that are listed from the bounds of the assets.
use immich_bridge.Prelude.{
  ℕ, zero, suc, ◌+◌, ◌-◌, ◌≤◌, ◌<◌, ◌≡◌, refl, sym, ap, ◌∙◌, subst, String, Bool, true, false, none,
  some, List, [], ◌∷◌, map, keep, arith, if◌then◌else◌,
}
use immich_bridge.FsModel.{Date, DateRange, date, year_range, days_in_month, is_leap}
use immich_bridge.Provider.Views.{decimal}
use immich_bridge.Service.{
  Answer, found, api_error, truncated, other_error, unfinished, ImmichFilesystem, Session, Run,
  and_then,
}
use immich_bridge.Service.Settled.{Later, Later-trans}
use immich_bridge.Service.Refines.{SettledTest, year_names-Settled}
use immich_bridge.Service.Buckets.{year_names, years_down, years_between, listed_if}
use immich_bridge.Service.Recalls.{and_then_found}

-- A year as a range of days.
abbrev pub year_days : ℕ → DateRange
year_days y = record {
  start = record { year = y; month = 1; day = 1 };
  end = record { year = y + 1; month = 1; day = 1 };
}

year_range_valid : (y : ℕ) → 1 ≤ y → y < 9999 → year_range (some y) ≡ some (year_days y)
unfolding year_range date days_in_month
year_range_valid y h k = ground arith

year_range_last : year_range (some 9999) ≡ none
unfolding year_range date days_in_month is_leap
year_range_last = refl

-- Every year of the list has a year after it in Python's calendar.
abbrev AllYears : List ℕ → Type 0
AllYears [] = Unit
AllYears (y ∷ ys) = (1 ≤ y) × (y < 9999) × AllYears ys

years_down-AllYears :
    (count newest : ℕ) → count ≤ newest → newest < 9999 → AllYears (years_down count newest)
unfolding years_down
years_down-AllYears zero newest h k = tt
years_down-AllYears (suc count) newest h k =
    (omega arith, k, years_down-AllYears count (newest - 1) (omega arith) (omega arith))

-- Is the answer yes?
abbrev pub says_yes : Answer Bool → Bool
says_yes (found b) = b
says_yes _ = false

listed_kept :
    (listed : Bool) (y : ℕ) (ys : List ℕ)
    → listed_if listed (decimal y) (map decimal ys) ≡ map decimal (if listed then y ∷ ys else ys)
listed_kept true y ys = refl
listed_kept false y ys = refl

and_then_inv :
    {A B : Type 0} (r : Answer A × Session) (f : A → Run B) (b : B)
    → (and_then r f).0 ≡ found b
    → (a : A) × (r.0 ≡ found a) × ((f a r.1).0 ≡ found b)
and_then_inv (found a, s) f b e = (a, refl, e)
and_then_inv (api_error status, s) f b e = cc
and_then_inv (truncated, s) f b e = cc
and_then_inv (other_error, s) f b e = cc
and_then_inv (unfinished, s) f b e = cc

found-injective : {A : Type 0} {a b : A} → found a ≡ found b → a ≡ b
found-injective e = ground arith

module _ (has : DateRange → Run Bool) (y : ℕ) (ys : List ℕ) (s : Session) where
  abbrev after : Session
  after = (has (year_days y) s).1

  -- The first year of a list, and the others.
  year_names_cons :
      (b : Bool) (rest : List String)
      → 1 ≤ y
      → y < 9999
      → (has (year_days y) s).0 ≡ found b
      → (year_names has ys after).0 ≡ found rest
      → year_names has (y ∷ ys) s
        ≡ (found (listed_if b (decimal y) rest), (year_names has ys after).1)
  unfolding year_names
  year_names_cons b rest first last e h =
      rw
        (
          year_range_valid y first last,
          and_then_found (has (year_days y) s) _ b e,
          and_then_found (year_names has ys after) _ rest h,
        )
        refl

  year_names_inv :
      (names : List String)
      → 1 ≤ y
      → y < 9999
      → (year_names has (y ∷ ys) s).0 ≡ found names
      → (b : Bool) × (rest : List String) × ((has (year_days y) s).0 ≡ found b)
        × ((year_names has ys after).0 ≡ found rest)
  unfolding year_names
  year_names_inv names first last h =
      let (b, e, h1) =
        and_then_inv (has (year_days y) s) _ names
          (rw (year_names, year_range_valid y first last) at h) in
      let (rest, e1, h2) = and_then_inv (year_names has ys after) _ names h1 in (b, rest, e, e1)

first_year_fails :
    (has : DateRange → Run Bool) (count newest : ℕ) (s : Session)
    → 1 ≤ count
    → newest ≡ 9999
    → year_names has (years_down count newest) s ≡ (other_error, s)
unfolding years_down year_names
first_year_fails has zero newest s h e = absurd (omega arith)
first_year_fails has (suc count) newest s h e = rw (e, year_range_last) refl

module _ (fs : ImmichFilesystem) where
  settled_names :
      (has : DateRange → Run Bool)
      → SettledTest fs has
      → (ys : List ℕ) (s : Session) (names : List String) → AllYears ys
      → (year_names has ys s).0 ≡ found names
      → (t : Session) → Later fs (year_names has ys s).1 t
      → names ≡ map decimal (keep (λ y. says_yes (has (year_days y) t).0) ys)
  unfolding year_names
  settled_names has settled [] s names all h t later = sym (found-injective h)
  settled_names has settled (y ∷ ys) s names all h t later =
      let (b, rest, e, h1) = year_names_inv has y ys s names all.0 all.1 h in
      let cons = year_names_cons has y ys s b rest all.0 all.1 e h1 in
      let later' : Later fs (year_names has ys (has (year_days y) s).1).1 t =
        subst (λ (u : Session). Later fs u t) (ap (λ r. r.1) cons) later in
      let again : has (year_days y) t ≡ (found b, t) =
        (settled (year_days y) s).1 b e t (
          Later-trans fs (year_names-Settled fs has settled ys (has (year_days y) s).1).0 later') in
      found-injective (sym h ∙ ap (λ r. r.0) cons)
      ∙ ap (listed_if b (decimal y))
          (settled_names has settled ys (has (year_days y) s).1 rest all.2 h1 t later')
      ∙ rw again (listed_kept b y _)

  -- Where the test of a range asks through the memo, and the newest asset is of a year before 9999: if
  -- the listing of years gives names, these are the names of exactly those years, the newest
  -- first, from the oldest asset's to the newest asset's, of which the test says in the session
  -- that the listing leads to, or in any later one of the request, that they have assets.
  pub years_between_listed :
      (has : DateRange → Run Bool) (oldest newest : Date) (s : Session) (names : List String)
      → SettledTest fs has
      → 1 ≤ oldest.year
      → newest.year < 9999
      → (years_between fs has (some (oldest, newest)) s).0 ≡ found names
      → (t : Session) → Later fs (years_between fs has (some (oldest, newest)) s).1 t
      → names
        ≡ map decimal (
            keep
              (λ y. says_yes (has (year_days y) t).0)
              (years_down (newest.year + 1 - oldest.year) newest.year))
  unfolding years_between
  years_between_listed has oldest newest s names settled first last h t later =
      settled_names has settled (years_down (newest.year + 1 - oldest.year) newest.year) s names
        (years_down-AllYears (newest.year + 1 - oldest.year) newest.year (omega arith) last) h t
        later

  -- Where the years are listed from the bounds of the oldest and the newest asset, as for albums, saved
  -- views and a timeline without buckets of months: if the newest asset is of the year 9999 and the
  -- oldest is not of a later year, the listing raises a ValueError before it asks whether any
  -- year has assets.
  pub last_year_fails :
      (has : DateRange → Run Bool) (oldest newest : Date) (s : Session)
      → newest.year ≡ 9999
      → oldest.year ≤ 9999
      → years_between fs has (some (oldest, newest)) s ≡ (other_error, s)
  unfolding years_between
  last_year_fails has oldest newest s e h =
      first_year_fails has (newest.year + 1 - oldest.year) newest.year s (omega arith) e
