-- ===== src/Provider/Views.antt =====
-- src/immich_bridge/webdav_provider.py, `saved_view_entries` and the lookups over it.
use immich_bridge.Prelude.{
  ℕ, zero, suc, ◌+◌, ◌/◌, ◌%◌, String, Option, none, some, List, [], ◌∷◌, ◌==◌, ltb, find_first,
  if◌then◌else◌, str_eq, concat,
}
use immich_bridge.Json.{Value, Fields, str, end, field, get, truthy, is_text, as_dict}
use immich_bridge.Dict.{Dict, lookup, insert}
use immich_bridge.Segment.{safe_segment}
use immich_bridge.Provider.{Provider, text_of}
use Prim.Native.String.{compare}
use text.Mathlib.Text.{is_le}
use mathlib.Core.Option

-- `{**d, key: value}`
pub set_field : String → Value → Fields → Fields
set_field k v end = field k v end
set_field k v (field j w fs) =
    let rest = set_field k v fs in if str_eq j k then field j v fs else field j w rest

-- the decimal digit `d`, below 10
abbrev pub digit_text : ℕ → String
digit_text zero = "0"
digit_text (suc zero) = "1"
digit_text (suc (suc zero)) = "2"
digit_text (suc (suc (suc zero))) = "3"
digit_text (suc (suc (suc (suc zero)))) = "4"
digit_text (suc (suc (suc (suc (suc zero))))) = "5"
digit_text (suc (suc (suc (suc (suc (suc zero)))))) = "6"
digit_text (suc (suc (suc (suc (suc (suc (suc zero))))))) = "7"
digit_text (suc (suc (suc (suc (suc (suc (suc (suc zero)))))))) = "8"
digit_text (suc (suc (suc (suc (suc (suc (suc (suc (suc n))))))))) = "9"

-- `str(n)`; a number has fewer digits than `n + 1`, the fuel
unfoldable pub decimal_from : ℕ → ℕ → String
decimal_from zero n = ""
decimal_from (suc fuel) n =
    let before = decimal_from fuel (n / 10) in
    if ltb n 10 then digit_text n else concat before (digit_text (n % 10))

unfoldable pub decimal : ℕ → String
unfolding decimal_from
decimal n = decimal_from (suc n) n

-- `str(value or fallback)`
unfoldable pub text_or : Provider → Value → String → String
text_or p v fallback = if truthy v then text_of p v else fallback

abbrev count_of : Option ℕ → ℕ
count_of none = 0
count_of (some n) = n

-- `safe_segment(view.get("name"), fallback="View")`
pub view_base : Provider → Fields → String
unfolding text_or
view_base p view = safe_segment (text_or p (get view "name") "View") "View" 140

-- The name of a view whose folded base name was met `count` times before.
pub dav_name : String → ℕ → String
unfolding decimal
dav_name base count = if count == 0 then base else concat base (concat "--" (decimal (count + 1)))

-- The loop; `used` counts the views of each folded base name.
pub named_views : Provider → Dict ℕ → List Fields → List Fields
named_views p used [] = []
named_views p used (view ∷ views) =
    let base = view_base p view in
    let key = p.casefold base in
    let count = count_of (lookup key used) in
    set_field "davName" (str (dav_name base count)) view
    ∷ named_views p (insert key (count + 1) used) views

-- `str(view["davName"]).casefold()`
pub sort_key : Provider → Fields → String
sort_key p view = p.casefold (text_of p (get view "davName"))

pub insert_view : Provider → Fields → List Fields → List Fields
unfolding sort_key
insert_view p view [] = view ∷ []
insert_view p view (v ∷ vs) =
    let rest = insert_view p view vs in
    if is_le (compare (sort_key p view) (sort_key p v)) then view ∷ v ∷ vs else v ∷ rest

-- `sorted(entries, key=...)`, which is stable
pub sorted_views : Provider → List Fields → List Fields
unfolding insert_view
sorted_views p [] = []
sorted_views p (view ∷ views) = insert_view p view (sorted_views p views)

pub saved_view_entries : Provider → List Fields
unfolding named_views sorted_views
saved_view_entries p = sorted_views p (named_views p [] p.enabled_views)

unfoldable pub saved_view_by_name : Provider → String → Option Fields
unfolding saved_view_entries
saved_view_by_name p name = find_first (λ v. is_text (get v "davName") name) (saved_view_entries p)

pub saved_view_by_id : Provider → String → Option Fields
unfolding saved_view_entries
saved_view_by_id p id = find_first (λ v. str_eq (text_of p (get v "id")) id) (saved_view_entries p)

-- `filters if isinstance(filters, dict) else {}`
pub filters_of : Fields → Fields
filters_of view = Option.get_or (as_dict (get view "filters")) end
