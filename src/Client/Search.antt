-- ===== src/Client/Search.antt =====
-- src/immich_bridge/immich_client.py: the searches, with the body that their filters make.
use immich_bridge.Prelude.{
  ℕ, String, Bool, true, false, not, Option, none, some, List, [], ◌∷◌, if◌then◌else◌,
}
use immich_bridge.Json.{
  ℤ, pos, Value, null, bool, int, arr, obj, Fields, end, field, Items, nil, cons, find, get, truthy,
  as_dict,
}
use immich_bridge.Provider.Views.{set_field}
use immich_bridge.Provider.Settings.{int_of}
use immich_bridge.Service.{Answer, found, api_error, truncated, other_error, unfinished, SearchPage}
use immich_bridge.Client.{
  ImmichClient, HttpRequest, World, Call, Ticks, request_json, cache_key, cached,
}

-- A keyword argument, the name that it has in the body, and whether any value but `None` counts, or
-- a true one only.
abbrev Parameter : Type 0
Parameter = String × String × Bool

abbrev pub parameters : List Parameter
parameters =
    ("album_ids", "albumIds", false)
    ∷ ("person_ids", "personIds", false)
    ∷ ("tag_ids", "tagIds", false)
    ∷ ("is_favorite", "isFavorite", true)
    ∷ ("media_type", "type", false)
    ∷ ("taken_after", "takenAfter", false)
    ∷ ("taken_before", "takenBefore", false)
    ∷ ("rating", "rating", true)
    ∷ ("query", "query", false)
    ∷ ("original_file_name", "originalFileName", false)
    ∷ ("ocr", "ocr", false)
    ∷ ("city", "city", false)
    ∷ ("state", "state", false)
    ∷ ("country", "country", false)
    ∷ []

abbrev is_none : Value → Bool
is_none null = true
is_none _ = false

abbrev counts : Bool → Value → Bool
counts true v = not (is_none v)
counts false v = truthy v

unfoldable pub body_of : List Parameter → Fields → Fields
body_of [] filters = end
body_of ((key, name, any_value) ∷ ps) filters =
    let rest = body_of ps filters in
    if counts any_value (get filters key) then field name (get filters key) rest else rest

unfoldable pub asset_search_filter_body : Fields → Fields
unfolding body_of
asset_search_filter_body = body_of parameters

-- `body["order"] = order`, if it is not empty
abbrev with_order : Value → Fields → Fields
with_order order body = if truthy order then set_field "order" order body else body

-- The body of `search_assets`. A search asks for metadata if it does not say otherwise.
unfoldable pub search_body : ℤ → ℕ → Fields → Fields
unfolding asset_search_filter_body
search_body page size filters = with_order (get filters "order") (
    set_field "withExif" (or_true (find filters "with_exif")) (
      set_field "size" (int (pos size))
        (set_field "page" (int page) (asset_search_filter_body filters))))
  where
    or_true : Option Value → Value
    or_true none = bool true
    or_true (some v) = v

-- `payload.get("assets", {})` of a dictionary; `{}` of another payload
abbrev assets_in : Value → Value
assets_in (obj payload) = elim (find payload "assets") [ none ↦ obj end | some v ↦ v ]
assets_in _ = obj end

-- `d.get("items", [])`
abbrev items_in : Fields → Value
items_in d = elim (find d "items") [ none ↦ arr nil | some v ↦ v ]

-- What the loader of `search_assets` makes of the payload; `assets` that is no dictionary has no `get`.
unfoldable pub page_fields : Value → Answer Value
page_fields payload = elim (as_dict (assets_in payload)) [
  | none ↦ other_error
  | some assets ↦ found (
      obj (
        field "items" (items_in assets)
          (field "nextPage" (get assets "nextPage") (field "total" (get assets "total") end))))
]

abbrev loaded : Answer Value × World → Answer Value × World
loaded (found payload, w) = (page_fields payload, w)
loaded r = r

-- The items of a page that are dictionaries; Immich sends no others.
abbrev dicts : Items → List Fields
dicts nil = []
dicts (cons (obj fs) vs) = fs ∷ dicts vs
dicts (cons _ vs) = dicts vs

abbrev total_in : Value → Option ℤ
total_in (int n) = some n
total_in _ = none

-- `SearchPage(...)` of the cached dictionary
unfoldable pub search_page : Value → Answer SearchPage
search_page (obj d) = elim (items_in d) [
  | arr vs ↦
      found (record {
        items = dicts vs;
        next_page = get d "nextPage";
        total = total_in (get d "total");
      })
  | _ ↦ other_error
]
search_page _ = other_error

abbrev paged : Answer Value × World → Answer SearchPage × World
paged (found v, w) = (search_page v, w)
paged (api_error status, w) = (api_error status, w)
paged (truncated, w) = (truncated, w)
paged (other_error, w) = (other_error, w)
paged (unfinished, w) = (unfinished, w)

-- `int(total)`, with a `TypeError` or a `ValueError` as an `ImmichApiError`
abbrev counted : Answer Value × World → Answer ℤ × World
counted (found (obj d), w) = elim (int_of (get d "total")) [
  | none ↦ (api_error none, w)
  | some n ↦ (found n, w)
]
counted (found _, w) = (other_error, w)
counted (api_error status, w) = (api_error status, w)
counted (truncated, w) = (truncated, w)
counted (other_error, w) = (other_error, w)
counted (unfinished, w) = (unfinished, w)

-- What the loader of `count_assets` makes of the payload.
abbrev only_total : Answer Value × World → Answer Value × World
only_total (found (obj payload), w) = (found (obj (field "total" (get payload "total") end)), w)
only_total (found _, w) = (found (obj (field "total" null end)), w)
only_total r = r

module _ (c : ImmichClient) where
  unfoldable pub search_assets : Ticks → ℤ → ℕ → Fields → Call SearchPage
  unfolding search_body page_fields search_page cached request_json cache_key
  search_assets t page size filters w =
      let body = search_body page size filters in
      let request : HttpRequest = record {
        method = "POST";
        path = "search/metadata";
        json_body = some body;
      } in
      paged (
        cached c t (cache_key c "search" body) c.search_cache_ttl_seconds
          (λ w'. loaded (request_json c request w')) w)

  unfoldable pub count_assets : Ticks → Fields → Call ℤ
  unfolding asset_search_filter_body cached request_json cache_key
  count_assets t filters w =
      let body = asset_search_filter_body filters in
      let request : HttpRequest = record {
        method = "POST";
        path = "search/statistics";
        json_body = some body;
      } in
      counted (
        cached c t (cache_key c "search-statistics" body) c.search_cache_ttl_seconds
          (λ w'. only_total (request_json c request w')) w)
