-- ===== src/Cache/Tests.antt =====
-- Concrete runs of the in-memory cache.
use immich_bridge.Prelude.{◌≡◌, none, [], ◌∷◌}
use immich_bridge.Json.{pos, Fields, end, field, str}
use immich_bridge.Cache.{InMemoryCache, get_json, set_json, count_value}
use immich_bridge.Cache.Expiry.{read_after_set}

abbrev ann : Fields
ann = field "name" (str "ann") end

abbrev one_item : InMemoryCache
one_item = ("auth:1", record { value = ann; expires_at = 5 }) ∷ []

abbrev one_failure : InMemoryCache
one_failure = ("fail", record { value = count_value (pos 1); expires_at = 60 }) ∷ []

-- Read at the deadline it is there; one tick later it is not.
set_then_read_late : (get_json 16 "a" (set_json 10 "a" ann 5 one_item)).0 ≡ none
set_then_read_late = read_after_set 10 16 "a" "a" ann 5 one_item
