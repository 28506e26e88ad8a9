-- ===== src/Client.antt =====
-- src/immich_bridge/immich_client.py, `ImmichClient`: requests with retries, the cache of answers, and
-- the methods that read and change the library. Original files are in Streams.
pub mod Search
pub mod Streams
pub mod Originals
pub mod Laws
mod Tests
use immich_bridge.Prelude.{
  ℕ, zero, suc, ◌+◌, ◌*◌, String, Bool, true, false, not, ◌&&◌, ◌||◌, Option, none, some, List, [],
  ◌∷◌, ltb, leb, ◌==◌, if◌then◌else◌, concat, str_eq,
}
use immich_bridge.Json.{
  ℤ, pos, Value, null, bool, int, str, arr, obj, Fields, end, field, Items, nil, cons, find, get,
  or_null, truthy, as_dict,
}
use immich_bridge.Cache.{InMemoryCache, get_json, set_json, delete_prefix}
use immich_bridge.Service.{Answer, found, api_error, truncated, other_error, unfinished, SearchPage}

-- What one attempt at a request gives: a time-out or a failed connection, or a status with a body.
pub data Body : Type 0 where
  empty invalid : Body
  parsed : Value → Body

pub data Attempt : Type 0 where
  no_response : Attempt
  response : ℕ → Body → Attempt

-- The method, the path and the JSON body of a request.
pub record HttpRequest : Type 0 where
  pub method : String
  pub path : String
  pub json_body : Option Fields

-- The client: what it takes from outside, which is the server, whose answers may depend on what was
-- sent before, newest first, JSON with sorted keys and SHA-256; and its settings.
pub record ImmichClient : Type 0 where
  pub send : List HttpRequest → HttpRequest → Attempt
  pub dumps : Fields → String
  pub sha256 : String → String
  pub user_scope : String
  pub album_cache_ttl_seconds : ℕ
  pub search_cache_ttl_seconds : ℕ
  pub asset_cache_ttl_seconds : ℕ

-- What a call changes: the cache, and what was sent.
pub record World : Type 0 where
  pub cache : InMemoryCache
  pub sent : List HttpRequest

abbrev pub Call {ℓ} : Type ℓ → Type ℓ
Call A = World → Answer A × World

-- The times at which `_cached` reads the clock: for the key, for the stale key, and when it stores
-- the value under each.
pub record Ticks : Type 0 where
  pub looked : ℕ
  pub stale_looked : ℕ
  pub stored : ℕ
  pub stale_stored : ℕ

abbrev pub max_request_attempts : ℕ
max_request_attempts = 3

-- `RETRY_STATUS_CODES`
unfoldable pub is_retry_status : ℕ → Bool
is_retry_status status =
    (status == 429) || (status == 500) || (status == 502) || (status == 503) || (status == 504)

-- What is made of a response that is not tried again.
unfoldable pub decide : ℕ → Body → Answer Value
decide status body =
    if status == 404
    then api_error (some 404)
    else if leb 400 status
    then api_error (some status)
    else elim body [ empty ↦ found (obj end) | invalid ↦ api_error none | parsed v ↦ found v ]

-- Is the answer one after which the request is sent again, if it may be?
unfoldable pub is_retried : Attempt → Bool
unfolding is_retry_status
is_retried no_response = true
is_retried (response status body) = is_retry_status status

abbrev pub final : Attempt → Answer Value
final no_response = api_error none
final (response status body) = decide status body

module _ (c : ImmichClient) where
  -- The loop of `_request_json`, with that many attempts left.
  unfoldable pub request_from : ℕ → HttpRequest → List HttpRequest → Answer Value × List HttpRequest
  unfolding is_retried decide
  request_from zero r sent = (api_error none, sent)
  request_from (suc left) r sent =
      let rest = request_from left r (r ∷ sent) in
      if is_retried (c.send sent r) && not (left == 0)
      then rest
      else (final (c.send sent r), r ∷ sent)

  unfoldable pub request_json : HttpRequest → Call Value
  unfolding request_from
  request_json r w =
      let (answer, sent) = request_from max_request_attempts r w.sent in
      (answer, record w { sent = sent })

  unfoldable pub cache_key : String → Fields → String
  cache_key prefix payload =
      concat "immich:"
        (concat c.user_scope (concat ":" (concat prefix (concat ":" (c.sha256 (c.dumps payload))))))

  abbrev pub stale_key : String → String
  stale_key key = concat key ":stale"

  abbrev pub max : ℕ → ℕ → ℕ
  max a b = if ltb a b then b else a

  abbrev pub stale_cache_ttl_seconds : ℕ
  stale_cache_ttl_seconds = 86400

  -- The two `set_json` calls of `_cached`.
  unfoldable pub keep_value : Ticks → String → ℕ → Value → InMemoryCache → InMemoryCache
  keep_value t key ttl v cache =
      set_json t.stale_stored (stale_key key) (field "value" v end)
        (max (ttl * 12) stale_cache_ttl_seconds)
        (set_json t.stored key (field "value" v end) ttl cache)

  -- `cached["value"]`, if there is one
  abbrev pub value_in : Option Fields → Option Value
  value_in none = none
  value_in (some d) = find d "value"

  -- What follows the loader in `_cached`.
  unfoldable pub after_load : Ticks → String → ℕ → Answer Value × World → Answer Value × World
  unfolding keep_value
  after_load t key ttl (found v, w) = (found v, record w { cache = keep_value t key ttl v w.cache })
  after_load t key ttl (api_error status, w) =
      let (stale, cache) = get_json t.stale_looked (stale_key key) w.cache in
      elim (value_in stale) [
        | some v ↦ (found v, record w { cache = cache })
        | none ↦ (api_error status, record w { cache = cache })
      ]
  after_load t key ttl (truncated, w) = (truncated, w)
  after_load t key ttl (other_error, w) = (other_error, w)
  after_load t key ttl (unfinished, w) = (unfinished, w)

  unfoldable pub cached : Ticks → String → ℕ → Call Value → Call Value
  unfolding after_load
  cached t key ttl loader w =
      let (hit, cache) = get_json t.looked key w.cache in
      elim (value_in hit) [
        | some v ↦ (found v, record w { cache = cache })
        | none ↦ after_load t key ttl (loader (record w { cache = cache }))
      ]

  unfoldable pub list_albums : Ticks → Call Value
  unfolding cached request_json cache_key
  list_albums t =
      cached t (cache_key "albums" end) c.album_cache_ttl_seconds
        (request_json (record { method = "GET"; path = "albums"; json_body = none }))

  unfoldable pub get_asset : Ticks → String → Call Value
  unfolding cached request_json cache_key
  get_asset t id =
      cached t (cache_key "asset" (field "id" (str id) end)) c.asset_cache_ttl_seconds
        (request_json (record { method = "GET"; path = concat "assets/" id; json_body = none }))

  abbrev pub favorite_query : Option Bool → Fields
  favorite_query none = end
  favorite_query (some b) = field "isFavorite" (bool b) end

  abbrev pub favorite_path : Option Bool → String
  favorite_path none = "timeline/buckets"
  favorite_path (some true) = "timeline/buckets?isFavorite=true"
  favorite_path (some false) = "timeline/buckets?isFavorite=false"

  unfoldable pub timeline_buckets : Ticks → Option Bool → Call Value
  unfolding cached request_json cache_key
  timeline_buckets t favorite =
      cached t (cache_key "timeline-buckets" (favorite_query favorite)) c.search_cache_ttl_seconds
        (request_json (record { method = "GET"; path = favorite_path favorite; json_body = none }))

  unfoldable pub invalidate_metadata_cache : World → World
  invalidate_metadata_cache w = record w {
    cache = delete_prefix (concat "immich:" (concat c.user_scope ":")) w.cache;
  }

  abbrev pub forget : Answer Value × World → Answer Value × World
  forget (found v, w) = (found v, invalidate_metadata_cache w)
  forget (api_error status, w) = (api_error status, w)
  forget (truncated, w) = (truncated, w)
  forget (other_error, w) = (other_error, w)
  forget (unfinished, w) = (unfinished, w)

  -- A request that changes the library; the cache of the user is dropped if it succeeds.
  unfoldable pub changing : HttpRequest → Call Value
  unfolding request_json invalidate_metadata_cache
  changing r w = forget (request_json r w)

  abbrev dict_or_empty : Answer Value → Answer Fields
  dict_or_empty (found (obj fs)) = found fs
  dict_or_empty (found _) = found end
  dict_or_empty (api_error status) = api_error status
  dict_or_empty truncated = truncated
  dict_or_empty other_error = other_error
  dict_or_empty unfinished = unfinished

  unfoldable pub create_album : String → Call Fields
  unfolding changing
  create_album name w =
      let body = field "albumName" (str name) (field "assetIds" (arr nil) end) in
      let (answer, w') =
        changing (record { method = "POST"; path = "albums"; json_body = some body }) w in
      (dict_or_empty answer, w')

  abbrev album_assets : String → String → String → HttpRequest
  album_assets method album_id asset_id = record {
    method = method;
    path = concat "albums/" (concat album_id "/assets");
    json_body = some (field "ids" (arr (cons (str asset_id) nil)) end);
  }

  unfoldable pub add_asset_to_album : String → String → Call Value
  unfolding changing
  add_asset_to_album album_id asset_id = changing (album_assets "PUT" album_id asset_id)

  unfoldable pub remove_asset_from_album : String → String → Call Value
  unfolding changing
  remove_asset_from_album album_id asset_id = changing (album_assets "DELETE" album_id asset_id)

  abbrev items_or_none : Value → Items
  items_or_none (arr vs) = vs
  items_or_none _ = nil

  -- `payload if isinstance(payload, list)`, or the list under `people`
  abbrev people_in : Value → Items
  people_in (arr vs) = vs
  people_in (obj payload) = items_or_none (get payload "people")
  people_in _ = nil

  abbrev made : {A : Type 0} → (Value → A) → Answer Value × World → Answer A × World
  made f (found v, w) = (found (f v), w)
  made f (api_error status, w) = (api_error status, w)
  made f (truncated, w) = (truncated, w)
  made f (other_error, w) = (other_error, w)
  made f (unfinished, w) = (unfinished, w)

  unfoldable pub list_tags : Call Items
  unfolding request_json
  list_tags w =
      made items_or_none
        (request_json (record { method = "GET"; path = "tags"; json_body = none }) w)

  unfoldable pub list_people : Call Items
  unfolding request_json
  list_people w =
      made people_in (request_json (record { method = "GET"; path = "people"; json_body = none }) w)
