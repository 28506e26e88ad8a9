-- ===== src/Service/Filters.antt =====
-- src/immich_bridge/fs_service.py: the filters of a search, and how they are compared as keys.
use immich_bridge.Prelude.{
  String, Bool, true, false, ◌&&◌, List, [], ◌∷◌, ◌==◌, if◌then◌else◌, str_eq, str_eq_refl, ◌≡◌,
  refl, arith,
}
use immich_bridge.Json.{
  ℤ, pos, negsuc, Value, null, bool, int, str, arr, obj, Fields, end, field, Items, nil, cons, get,
}
use immich_bridge.Assets.{text_before}
use immich_bridge.Provider.Views.{set_field}
use immich_bridge.Provider.{Source, date_view, in_album, in_view}

abbrev allowed : List String
allowed =
    "album_ids" ∷ "person_ids" ∷ "tag_ids" ∷ "is_favorite" ∷ "media_type" ∷ "taken_after"
    ∷ "taken_before" ∷ "rating" ∷ "query" ∷ "original_file_name" ∷ "ocr" ∷ "city" ∷ "state"
    ∷ "country" ∷ []

-- `value is None or value == "" or value == []`
unfoldable pub is_unset : Value → Bool
is_unset null = true
is_unset (str s) = str_eq s ""
is_unset (arr nil) = true
is_unset _ = false

unfoldable pub set_filters : List String → Fields → Fields
unfolding is_unset
set_filters [] filters = end
set_filters (key ∷ keys) filters =
    let rest = set_filters keys filters in
    if is_unset (get filters key) then rest else field key (get filters key) rest

-- The set of allowed names is gone through in one order; the filters do not depend on it.
unfoldable pub view_search_filters : Fields → Fields
unfolding set_filters
view_search_filters = set_filters allowed

-- The later of two start times, and the earlier of two end times; a filter that is no text is dropped.
unfoldable pub later_start : Value → String → String
later_start (str existing) bound = if text_before bound existing then existing else bound
later_start _ bound = bound

unfoldable pub earlier_end : Value → String → String
earlier_end (str existing) bound = if text_before existing bound then existing else bound
earlier_end _ bound = bound

unfoldable pub with_date_bounds : Fields → String → String → Fields
unfolding later_start earlier_end
with_date_bounds filters taken_after taken_before =
    set_field "taken_before" (str (earlier_end (get filters "taken_before") taken_before))
      (set_field "taken_after" (str (later_start (get filters "taken_after") taken_after)) filters)

-- `True if is_favorite else None`
abbrev pub favorite_flag : Bool → Value
favorite_flag favorite = if favorite then bool true else null

abbrev pub album_ids : String → Value
album_ids id = arr (cons (str id) nil)

-- The filters that a source stands for, narrowed to a time interval.
unfoldable pub dated : Source → String → String → Fields
unfolding with_date_bounds
dated (date_view favorite) after before =
    field "is_favorite" (favorite_flag favorite)
      (field "taken_after" (str after) (field "taken_before" (str before) end))
dated (in_album id) after before =
    field "album_ids" (album_ids id)
      (field "taken_after" (str after) (field "taken_before" (str before) end))
dated (in_view filters) after before = with_date_bounds filters after before

-- The same without an interval.
unfoldable pub undated : Source → Fields
undated (date_view favorite) = field "is_favorite" (favorite_flag favorite) end
undated (in_album id) = field "album_ids" (album_ids id) end
undated (in_view filters) = filters

abbrev pub with_exif : Bool → Fields → Fields
with_exif b = field "with_exif" (bool b)

abbrev pub ordered : String → Fields → Fields
ordered order = field "order" (str order)

-- What `_freeze` gives: a tuple for a list, and for a dictionary one of pairs. `True` equals 1 in Python,
-- and is the same here.
mutual
  pub data Frozen : Type 0 where
    none_atom : Frozen
    int_atom : ℤ → Frozen
    str_atom : String → Frozen
    tuple : Frozens → Frozen

  pub data Frozens : Type 0 where
    empty : Frozens
    item : Frozen → Frozens → Frozens

-- A frozen pair, put in its place by its key.
unfoldable insert_pair : String → Frozen → List (String × Frozen) → List (String × Frozen)
insert_pair k v [] = (k, v) ∷ []
insert_pair k v ((j, w) ∷ pairs) =
    let rest = insert_pair k v pairs in
    if text_before j k then (j, w) ∷ rest else (k, v) ∷ (j, w) ∷ pairs

abbrev tuple_of : List (String × Frozen) → Frozens
tuple_of [] = empty
tuple_of ((k, v) ∷ pairs) = item (tuple (item (str_atom k) (item v empty))) (tuple_of pairs)

unfoldable mutual
  unfolding insert_pair

  -- `self._freeze(value)`
  pub freeze : Value → Frozen
  freeze null = none_atom
  freeze (bool true) = int_atom (pos 1)
  freeze (bool false) = int_atom (pos 0)
  freeze (int n) = int_atom n
  freeze (str s) = str_atom s
  freeze (arr vs) = tuple (freeze_items vs)
  freeze (obj fs) = tuple (tuple_of (freeze_fields fs))

  freeze_items : Items → Frozens
  freeze_items nil = empty
  freeze_items (cons v vs) = item (freeze v) (freeze_items vs)

  freeze_fields : Fields → List (String × Frozen)
  freeze_fields end = []
  freeze_fields (field k v fs) = insert_pair k (freeze v) (freeze_fields fs)

abbrev same_int : ℤ → ℤ → Bool
same_int (pos a) (pos b) = a == b
same_int (negsuc a) (negsuc b) = a == b
same_int (pos a) (negsuc b) = false
same_int (negsuc a) (pos b) = false

-- `a == b`
unfoldable mutual
  same_frozen : Frozen → Frozen → Bool
  same_frozen none_atom none_atom = true
  same_frozen (int_atom a) (int_atom b) = same_int a b
  same_frozen (str_atom a) (str_atom b) = str_eq a b
  same_frozen (tuple a) (tuple b) = same_frozens a b
  same_frozen _ _ = false

  same_frozens : Frozens → Frozens → Bool
  same_frozens empty empty = true
  same_frozens (item a rest) (item b others) = same_frozen a b && same_frozens rest others
  same_frozens _ _ = false

-- The keys of two searches, or of two views, are equal.
unfoldable pub same_filters : Fields → Fields → Bool
unfolding freeze same_frozen
same_filters a b = same_frozen (freeze (obj a)) (freeze (obj b))

same_int_refl : (n : ℤ) → same_int n n ≡ true
same_int_refl (pos n) = ground arith
same_int_refl (negsuc n) = ground arith

mutual
  unfolding same_frozen

  same_frozen_refl : (a : Frozen) → same_frozen a a ≡ true
  same_frozen_refl none_atom = refl
  same_frozen_refl (int_atom n) = same_int_refl n
  same_frozen_refl (str_atom s) = str_eq_refl s
  same_frozen_refl (tuple a) = same_frozens_refl a

  same_frozens_refl : (a : Frozens) → same_frozens a a ≡ true
  same_frozens_refl empty = refl
  same_frozens_refl (item a rest) = rw (same_frozen_refl a) (same_frozens_refl rest)

pub same_filters_refl : (a : Fields) → same_filters a a ≡ true
unfolding same_filters
same_filters_refl a = same_frozen_refl (freeze (obj a))
