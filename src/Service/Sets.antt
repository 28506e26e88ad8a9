-- ===== src/Service/Sets.antt =====
-- `sorted(set(xs))` in src/immich_bridge/fs_service.py: each value once, in order.
pub mod Laws
use immich_bridge.Prelude.{ℕ, Bool, ◌&&◌, ◌||◌, List, [], ◌∷◌, ◌==◌, ltb, if◌then◌else◌}
use immich_bridge.FsModel.{Date}

-- `a < b`, of dates
unfoldable pub date_before : Date → Date → Bool
date_before a b =
    ltb a.year b.year
    || ((a.year == b.year) && (ltb a.month b.month || ((a.month == b.month) && ltb a.day b.day)))

-- Sorting by `before`; values of which neither is before the other are one.
module _ {A : Type 0} (before : A → A → Bool) where
  unfoldable pub insert_once : A → List A → List A
  insert_once x [] = x ∷ []
  insert_once x (y ∷ ys) =
      let rest = insert_once x ys in
      if before x y then x ∷ y ∷ ys else if before y x then y ∷ rest else y ∷ ys

  unfoldable pub sorted_set : List A → List A
  unfolding insert_once
  sorted_set [] = []
  sorted_set (x ∷ xs) = insert_once x (sorted_set xs)
