-- ===== src/Json.antt =====
-- JSON values and Python's view of them: the `Any` values that the sources read with
-- `dict.get`, `isinstance` and truth tests. A dictionary is its list of items; `get` reads the
-- first item of a key. Numbers are integers: no modelled code reads a fraction out of JSON.
use immich_bridge.Prelude.{
  ℕ, String, Bool, true, false, not, ◌||◌, Option, none, some, str_eq, ◌==◌, if◌then◌else◌,
}

-- `negsuc n` is -(n + 1).
pub data ℤ : Type 0 where
  pos : ℕ → ℤ
  negsuc : ℕ → ℤ

mutual
  pub data Fields : Type 0 where
    end : Fields
    field : String → Value → Fields → Fields

  pub data Items : Type 0 where
    nil : Items
    cons : Value → Items → Items

  pub data Value : Type 0 where
    null : Value
    bool : Bool → Value
    int : ℤ → Value
    str : String → Value
    arr : Items → Value
    obj : Fields → Value

-- `d.get(key)`: `none` on a missing key
abbrev pub find : Fields → String → Option Value
find end k = none
find (field j v fs) k = let rest = find fs k in if str_eq j k then some v else rest

-- `d.get(key)` where `None` stands for a missing key too
abbrev pub or_null : Option Value → Value
or_null none = null
or_null (some v) = v

abbrev pub get : Fields → String → Value
get fs k = or_null (find fs k)

-- `bool(value)`
abbrev pub truthy : Value → Bool
truthy null = false
truthy (bool b) = b
truthy (int (pos n)) = not (n == 0)
truthy (int (negsuc n)) = true
truthy (str s) = not (str_eq s "")
truthy (arr nil) = false
truthy (arr (cons v vs)) = true
truthy (obj end) = false
truthy (obj (field k v fs)) = true

-- `value == text`, for a `str` text
abbrev pub is_text : Value → String → Bool
is_text (str t) s = str_eq t s
is_text _ s = false

-- `text in items`
abbrev pub has_text : Items → String → Bool
has_text nil s = false
has_text (cons v vs) s = is_text v s || has_text vs s

-- `value if isinstance(value, str) else None`
abbrev pub as_text : Value → Option String
as_text (str s) = some s
as_text _ = none

-- `isinstance(value, int)`, with `bool` a subclass of `int` as in Python
abbrev pub as_int : Value → Option ℤ
as_int (int n) = some n
as_int (bool true) = some (pos 1)
as_int (bool false) = some (pos 0)
as_int _ = none

-- `isinstance(value, dict)`
abbrev pub as_dict : Value → Option Fields
as_dict (obj fs) = some fs
as_dict _ = none
