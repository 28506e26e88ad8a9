-- ===== src/Client/Laws.antt =====
-- src/immich_bridge/immich_client.py: the cache of answers, `_cached`.
use immich_bridge.Prelude.{
  ℕ, ◌+◌, ◌*◌, ◌≤◌, ◌<◌, ◌≡◌, refl, sym, ap, ◌∙◌, inl, inr, String, true, false, Option, none, some,
  length, arith, str_eq, str_eq_ne, str_eq_refl, concat, ltb, if◌then◌else◌, Option-cases,
}
use immich_bridge.Json.{Value, Fields, end, field}
use immich_bridge.Text.{codes}
use immich_bridge.Cache.{InMemoryCache, get_json, set_json, delete_prefix}
use immich_bridge.Cache.Expiry.{read_after_set, read_after_get, read_after_delete_prefix}
use immich_bridge.Service.{Answer, found, api_error, truncated, other_error, unfinished}
use immich_bridge.Client.{
  ImmichClient, HttpRequest, World, Call, Ticks, cache_key, keep_value, value_in, after_load,
  cached, max, changing, forget, invalidate_metadata_cache, request_json,
}
use Prim.Native.String.{◌++◌}
use Prim.Native.String.append
use text.Mathlib.Text.{starts_with}
use text.Mathlib.TextPositions.{starts_with-append}

concat_append : (s t : String) → concat s t ≡ s ++ t
concat_append String.[] t = sym (append.nil t)
concat_append (String.◌∷◌ c s) t =
    ap (λ u. String.◌∷◌ c u) (concat_append s t) ∙ sym (append.cons c s t)

concat_assoc : (s t u : String) → concat (concat s t) u ≡ concat s (concat t u)
concat_assoc String.[] t u = refl
concat_assoc (String.◌∷◌ c s) t u = ap (λ v. String.◌∷◌ c v) (concat_assoc s t u)

starts_with-concat : (s t : String) → starts_with (concat s t) s ≡ true
starts_with-concat s t = rw (concat_append s t) (starts_with-append s t)

length_stale : (key : String) → length (codes (concat key ":stale")) ≡ length (codes key) + 6
length_stale String.[] = refl
length_stale (String.◌∷◌ c s) = omega (arith, length_stale s)

stale_differs : (key : String) → str_eq (concat key ":stale") key ≡ false
stale_differs key = str_eq_ne (concat key ":stale") key (λ e.
    let same : length (codes (concat key ":stale")) ≡ length (codes key) =
      ap (λ s. length (codes s)) e in
    omega (arith, length_stale key, same))

-- What a reader of the two keys gets after `_cached` stored a value.
kept_read :
    (c : ImmichClient) (t : Ticks) (key : String) (ttl : ℕ) (v : Value) (cache : InMemoryCache)
    (later : ℕ)
    → (get_json later key (keep_value c t key ttl v cache)).0
      ≡ (if ltb (t.stored + ttl) later then none else some (field "value" v end))
unfolding keep_value
kept_read c t key ttl v cache later =
    read_after_set t.stale_stored later (concat key ":stale") key (field "value" v end)
      (max c (ttl * 12) 86400) (set_json t.stored key (field "value" v end) ttl cache)
    ∙ rw (stale_differs key) (
        read_after_set t.stored later key key (field "value" v end) ttl cache
        ∙ rw (str_eq_refl key) refl)

stale_read :
    (c : ImmichClient) (t : Ticks) (key : String) (ttl : ℕ) (v : Value) (cache : InMemoryCache)
    (later : ℕ)
    → (get_json later (concat key ":stale") (keep_value c t key ttl v cache)).0 ≡ (
        if ltb (t.stale_stored + max c (ttl * 12) 86400) later
        then none
        else some (field "value" v end))
unfolding keep_value
stale_read c t key ttl v cache later =
    read_after_set t.stale_stored later (concat key ":stale") (concat key ":stale")
      (field "value" v end) (max c (ttl * 12) 86400)
      (set_json t.stored key (field "value" v end) ttl cache)
    ∙ rw (str_eq_refl (concat key ":stale")) refl

-- The stale value, if there is one, or the error.
abbrev or_stale : Option ℕ → Option Value → Answer Value
or_stale status none = api_error status
or_stale status (some v) = found v

module _ (c : ImmichClient) where
  cached_hit :
      (t : Ticks) (key : String) (ttl : ℕ) (loader : Call Value) (w : World) (v : Value)
      → value_in c (get_json t.looked key w.cache).0 ≡ some v
      → cached c t key ttl loader w
        ≡ (found v, record w { cache = (get_json t.looked key w.cache).1 })
  unfolding cached get_json
  cached_hit t key ttl loader w v e = rw (cached, e) refl

  cached_miss :
      (t : Ticks) (key : String) (ttl : ℕ) (loader : Call Value) (w : World)
      → value_in c (get_json t.looked key w.cache).0 ≡ none
      → cached c t key ttl loader w
        ≡ after_load c t key ttl (loader (record w { cache = (get_json t.looked key w.cache).1 }))
  unfolding cached
  cached_miss t key ttl loader w e = rw (cached, e) refl

  -- What follows a loader that failed, by what is stored under the stale key.
  after_error :
      (t : Ticks) (key : String) (ttl : ℕ) (status : Option ℕ) (r : Answer Value × World)
      → r.0 ≡ api_error status
      → (after_load c t key ttl r).0
        ≡ or_stale status (value_in c (get_json t.stale_looked (concat key ":stale") r.1.cache).0)
  unfolding after_load
  after_error t key ttl status (api_error other, w) e =
      let same : other ≡ status = ground arith in
      elim (Option-cases (value_in c (get_json t.stale_looked (concat key ":stale") w.cache).0)) [
        | inl none_left ↦ rw (after_load, none_left, same) refl
        | inr (v, kept) ↦ rw (after_load, kept) refl
      ]
  after_error t key ttl status (found v, w) e = cc
  after_error t key ttl status (truncated, w) e = cc
  after_error t key ttl status (other_error, w) e = cc
  after_error t key ttl status (unfinished, w) e = cc

  -- The world after `_cached` stored a value.
  abbrev pub stored_in : Ticks → String → ℕ → Value → World → World
  stored_in t key ttl v w = record w { cache = keep_value c t key ttl v w.cache }

  -- A value that _cached stored is served again, without a request, up to the end of its time to
  -- live, whatever the loader.
  pub served_again :
      (t later : Ticks) (key : String) (ttl : ℕ) (v : Value) (w : World) (loader : Call Value)
      → later.looked ≤ t.stored + ttl
      → ((cached c later key ttl loader (stored_in t key ttl v w)).0 ≡ found v)
        × ((cached c later key ttl loader (stored_in t key ttl v w)).1.sent ≡ w.sent)
  served_again t later key ttl v w loader h =
      let fresh : ltb (t.stored + ttl) later.looked ≡ false = ground arith in
      let hit =
        cached_hit later key ttl loader (stored_in t key ttl v w) v
          (rw (kept_read c t key ttl v w.cache later.looked, fresh) refl) in
      rw hit (refl, refl)

  -- After its time to live and up to the end of the stale time, a value that _cached stored is served
  -- in place of the ImmichApiError that the loader raises, if the loader leaves the cache alone.
  pub served_stale :
      (t later : Ticks) (key : String) (ttl : ℕ) (v : Value) (w : World) (loader : Call Value)
      (status : Option ℕ)
      → t.stored + ttl < later.looked
      → later.looked ≤ later.stale_looked
      → later.stale_looked ≤ t.stale_stored + max c (ttl * 12) 86400
      → ((x : World) → ((loader x).0 ≡ api_error status) × ((loader x).1.cache ≡ x.cache))
      → (cached c later key ttl loader (stored_in t key ttl v w)).0 ≡ found v
  served_stale t later key ttl v w loader status late order stale fails =
      let expired : ltb (t.stored + ttl) later.looked ≡ true = ground arith in
      let kept : ltb (t.stale_stored + max c (ttl * 12) 86400) later.stale_looked ≡ false =
        ground arith in
      let w1 = stored_in t key ttl v w in
      let x : World = record w1 { cache = (get_json later.looked key w1.cache).1 } in
      let miss =
        cached_miss later key ttl loader w1
          (rw (kept_read c t key ttl v w.cache later.looked, expired) refl) in
      let read : (get_json later.stale_looked (concat key ":stale") (loader x).1.cache).0
          ≡ some (field "value" v end) =
        rw
          (
            (fails x).1,
            read_after_get later.looked later.stale_looked key (concat key ":stale") w1.cache order,
            stale_read c t key ttl v w.cache later.stale_looked,
            kept,
          )
          refl in
      rw miss (after_error later key ttl status (loader x) (fails x).0 ∙ rw read refl)

  -- The prefix of the keys of a user.
  abbrev own_prefix : String
  own_prefix = concat "immich:" (concat c.user_scope ":")

  own_key :
      (prefix : String) (payload : Fields)
      → cache_key c prefix payload
        ≡ concat own_prefix (concat prefix (concat ":" (c.sha256 (c.dumps payload))))
  unfolding cache_key
  own_key prefix payload =
      let rest = concat prefix (concat ":" (c.sha256 (c.dumps payload))) in
      ap (λ s. concat "immich:" s) (sym (concat_assoc c.user_scope ":" rest))
      ∙ sym (concat_assoc "immich:" (concat c.user_scope ":") rest)

  forgotten :
      (now : ℕ) (rest : String) (cache : InMemoryCache)
      → (get_json now (concat own_prefix rest) (delete_prefix own_prefix cache)).0 ≡ none
  forgotten now rest cache =
      read_after_delete_prefix now own_prefix (concat own_prefix rest) cache
      ∙ rw (starts_with-concat own_prefix rest) refl

  forget_found :
      (r : Answer Value × World) (v : Value)
      → (forget c r).0 ≡ found v
      → (forget c r).1.cache ≡ delete_prefix own_prefix r.1.cache
  unfolding invalidate_metadata_cache
  forget_found (found u, w) v e = refl
  forget_found (api_error status, w) v e = cc
  forget_found (truncated, w) v e = cc
  forget_found (other_error, w) v e = cc
  forget_found (unfinished, w) v e = cc

  after_load_fresh :
      (t : Ticks) (key : String) (ttl : ℕ) (r : Answer Value × World)
      → value_in c (get_json t.stale_looked (concat key ":stale") r.1.cache).0 ≡ none
      → (after_load c t key ttl r).0 ≡ r.0
  unfolding after_load
  after_load_fresh t key ttl (found v, w) e = refl
  after_load_fresh t key ttl (api_error status, w) e = rw (after_load, e) refl
  after_load_fresh t key ttl (truncated, w) e = refl
  after_load_fresh t key ttl (other_error, w) e = refl
  after_load_fresh t key ttl (unfinished, w) e = refl

  -- After a change of the library succeeded, the next answer of _cached under any key of the user is
  -- its loader's, a value or an error: nothing that was stored before the change is served, not
  -- even as a stale value, if the loader leaves the cache alone.
  pub change_forgets :
      (r : HttpRequest) (w : World) (changed : Value) (t : Ticks) (prefix : String)
      (payload : Fields) (ttl : ℕ) (loader : Call Value)
      → (changing c r w).0 ≡ found changed
      → t.looked ≤ t.stale_looked
      → ((x : World) → (loader x).1.cache ≡ x.cache)
      → (x : World) × (x.sent ≡ (changing c r w).1.sent)
        × ((cached c t (cache_key c prefix payload) ttl loader (changing c r w).1).0 ≡ (loader x).0)
  unfolding changing
  change_forgets r w changed t prefix payload ttl loader e order keeps =
      let rest = concat prefix (concat ":" (c.sha256 (c.dumps payload))) in
      let w1 = (forget c (request_json c r w)).1 in
      let gone : w1.cache ≡ delete_prefix own_prefix (request_json c r w).1.cache =
        forget_found (request_json c r w) changed e in
      let key = cache_key c prefix payload in
      let x : World = record w1 { cache = (get_json t.looked key w1.cache).1 } in
      let miss : (get_json t.looked key w1.cache).0 ≡ none =
        rw (own_key prefix payload, gone) (forgotten t.looked rest (request_json c r w).1.cache) in
      let no_stale : (get_json t.stale_looked (concat key ":stale") (loader x).1.cache).0 ≡ none =
        rw
          (
            keeps x,
            read_after_get t.looked t.stale_looked key (concat key ":stale") w1.cache order,
            gone,
            own_key prefix payload,
            concat_assoc own_prefix rest ":stale",
          )
          (forgotten t.stale_looked (concat rest ":stale") (request_json c r w).1.cache) in
      (
        x,
        refl,
        rw (cached_miss t key ttl loader w1 (rw miss refl))
            (after_load_fresh t key ttl (loader x) (rw no_stale refl)),
      )
