-- ===== src/ImmichAuth/Laws.antt =====
-- src/immich_bridge/immich_auth.py: the API keys that are accepted.
use immich_bridge.Prelude.{
  String, ◌≡◌, inl, inr, true, some, ◌==◌, arith, concat, Option-cases, Bool-cases,
}
use immich_bridge.Json.{Value, Fields, get, truthy, as_dict}
use immich_bridge.ImmichAuth.{
  ImmichIdentity, Response, HttpGet, accepted, KeyName, key_name, key_refused, key_crashed,
  api_key_name, identity, with_key_name, with_user_body, with_user_response,
  validate_immich_api_key,
}

-- Immich answered 200 for the key's user, with an object whose `id` is the identity's and not
-- empty, and the answer about the key itself could be read.
pub record IsKnown (http : HttpGet) (base_url api_key : String) (i : ImmichIdentity) : Type 0 where
  pub response : Response
  pub answered : http (concat base_url "/users/me") api_key ≡ some response
  pub success : response.status_code ≡ 200
  pub body : Value
  pub parsed : response.json ≡ some body
  pub fields : Fields
  pub is_object : as_dict body ≡ some fields
  pub same_id : i.user_id ≡ get fields "id"
  pub has_id : truthy i.user_id ≡ true
  pub readable :
      api_key_name (http (concat base_url "/api-keys/me") api_key) ≡ key_name i.api_key_name

identity_lem :
    (fields : Fields) (name : Value) (i : ImmichIdentity)
    → identity fields name ≡ accepted i
    → (i.user_id ≡ get fields "id") × (truthy i.user_id ≡ true) × (i.api_key_name ≡ name)
unfolding identity
identity_lem fields name i h = ground arith

with_key_name_lem :
    (user_data : Value) (k : KeyName) (i : ImmichIdentity)
    → with_key_name user_data k ≡ accepted i
    → (fields : Fields) × (as_dict user_data ≡ some fields)
      × (i.user_id ≡ get fields "id")
      × (truthy i.user_id ≡ true)
      × (k ≡ key_name i.api_key_name)
unfolding with_key_name
with_key_name_lem user_data key_refused i h = absurd (ground arith)
with_key_name_lem user_data key_crashed i h = absurd (ground arith)
with_key_name_lem user_data (key_name name) i h = elim (Option-cases (as_dict user_data)) [
  | inl e ↦ absurd (ground arith)
  | inr (fields, e) ↦
      let (a, b, c) = identity_lem fields name i (ground arith) in (fields, e, a, b, ground arith)
]

-- A key is accepted only for a user that Immich named: the request for the key's user was answered
-- 200 with an object, the identity has that object's id, which is not empty, and the answer about
-- the key itself was readable and gives the key's name.
pub accepted-IsKnown :
    (http : HttpGet) (base_url api_key : String) (i : ImmichIdentity)
    → validate_immich_api_key http base_url api_key ≡ accepted i
    → IsKnown http base_url api_key i
unfolding validate_immich_api_key with_user_response with_user_body
accepted-IsKnown http base_url api_key i h =
    elim (Option-cases (http (concat base_url "/users/me") api_key)) [
      | inl e ↦ absurd (ground arith)
      | inr (r, e) ↦ elim (Bool-cases (r.status_code == 200)) [
        | inr f ↦ absurd (ground arith)
        | inl f ↦ elim (Option-cases r.json) [
          | inl g ↦ absurd (ground arith)
          | inr (body, g) ↦
              let (fields, a, b, c, d) =
                with_key_name_lem body
                  (api_key_name (http (concat base_url "/api-keys/me") api_key)) i (ground arith) in
              record {
                response = r;
                answered = e;
                success = ground arith;
                body = body;
                parsed = g;
                fields = fields;
                is_object = a;
                same_id = b;
                has_id = c;
                readable = d;
              }
        ]
      ]
    ]
