-- ===== src/Authz/Tokens.antt =====
-- Signed grant tokens: `sign_grants` and `verify_grants_token` of src/immich_bridge/authz.py. The
-- HMAC and the JSON codec are parameters. Tokens are lists of code points, `.` among them.
pub mod Laws
use immich_bridge.Prelude.{
  ℕ, String, Bool, true, false, Option, none, some, List, [], ◌∷◌, ◌++◌, ◌==◌, if◌then◌else◌,
}
use immich_bridge.Json.{Value, Items, Fields, str, arr, obj, nil, cons, end, field, as_dict}
use immich_bridge.Base64.{b64, unb64}

-- `hmac.new(secret.encode(), payload, hashlib.sha256).digest()`, `_canonical_json`, and
-- `json.loads(payload.decode())`, where `none` is a decoding error.
pub record Codec : Type 0 where
  pub hmac : String → List ℕ → List ℕ
  pub canonical_json : Fields → List ℕ
  pub loads : List ℕ → Option Value

-- `hmac.compare_digest`
pub compare_digest : List ℕ → List ℕ → Bool
compare_digest [] [] = true
compare_digest (a ∷ as') (b ∷ bs) =
    let rest = compare_digest as' bs in if a == b then rest else false
compare_digest _ _ = false

abbrev pub Partition : Type 0
Partition = List ℕ × Bool × List ℕ

abbrev cons_partition : ℕ → Partition → Partition
cons_partition c (before, found, after) = (c ∷ before, found, after)

-- `text.partition(sep)`; the flag says whether the separator was found
pub partition : ℕ → List ℕ → Partition
partition sep [] = ([], false, [])
partition sep (c ∷ cs) =
    let rest = cons_partition c (partition sep cs) in if c == sep then ([], true, cs) else rest

-- The list of grants as a JSON value.
abbrev pub grant_items : List Fields → Items
grant_items [] = nil
grant_items (g ∷ gs) = cons (obj g) (grant_items gs)

-- The keyword arguments of `sign_grants`.
pub record Session : Type 0 where
  pub session_id : String
  pub principal_id : String
  pub principal_kind : String
  pub grants : List Fields
  pub expires_at : String

unfoldable pub payload : Session → Fields
payload s = field "iss" (str "immich-bridge") (
    field "aud" (str "immich-bridge-api") (
      field "sid" (str s.session_id) (
        field "sub" (str s.principal_id) (
          field "kind" (str s.principal_kind)
            (field "grants" (arr (grant_items s.grants)) (field "exp" (str s.expires_at) end))))))

module _ (codec : Codec) (secret : String) where
  pub sign_grants : Session → List ℕ
  sign_grants session =
      let payload_bytes = codec.canonical_json (payload session) in
      b64 payload_bytes ++ (b'.' ∷ b64 (codec.hmac secret payload_bytes))

  -- The steps after both parts are decoded.
  pub check_signature : List ℕ → List ℕ → Option Fields
  check_signature payload_bytes signature =
      if compare_digest signature (codec.hmac secret payload_bytes)
      then elim (codec.loads payload_bytes) [ none ↦ none | some v ↦ as_dict v ]
      else none

  pub decode_parts : Option (List ℕ) → Option (List ℕ) → Option Fields
  decode_parts (some payload_bytes) (some signature) = check_signature payload_bytes signature
  decode_parts _ _ = none

  pub verify_parts : Partition → Option Fields
  verify_parts (payload_text, true, signature_text) =
      decode_parts (unb64 payload_text) (unb64 signature_text)
  verify_parts (payload_text, false, signature_text) = none

  pub verify_grants_token : List ℕ → Option Fields
  verify_grants_token token = verify_parts (partition b'.' token)
