-- ===== src/ImmichAuth.antt =====
-- src/immich_bridge/immich_auth.py: `validate_immich_api_key`. The HTTP client is a parameter.
pub mod Laws
mod Tests
use immich_bridge.Prelude.{
  ℕ, String, Bool, true, false, Option, none, some, ◌==◌, str_eq, if◌then◌else◌, concat,
}
use immich_bridge.Json.{Value, Fields, null, get, truthy, as_dict}

-- The fields are what Immich answered: nothing checks that they are texts.
pub record ImmichIdentity : Type 0 where
  pub user_id : Value
  pub email : Value
  pub name : Value
  pub api_key_name : Value
  pub is_admin : Bool

-- `json` is `none` where `response.json()` raises `ValueError`.
pub record Response : Type 0 where
  pub status_code : ℕ
  pub json : Option Value

-- `client.get(url, headers={"x-api-key": key})`, by URL and key; `none` is a `httpx.RequestError`.
abbrev pub HttpGet : Type 0
HttpGet = String → String → Option Response

-- `refused` is the return of `None`; `crashed` is the `AttributeError` of a body that is no object.
pub data Validation : Type 0 where
  accepted : ImmichIdentity → Validation
  refused crashed : Validation

-- The `name` of the key's own record, if that request succeeds.
pub data KeyName : Type 0 where
  key_name : Value → KeyName
  key_refused key_crashed : KeyName

pub name_of_body : Option Value → KeyName
name_of_body none = key_refused
name_of_body (some body) = elim (as_dict body) [
  | none ↦ key_crashed
  | some key_data ↦ key_name (get key_data "name")
]

pub api_key_name : Option Response → KeyName
unfolding name_of_body
api_key_name none = key_refused
api_key_name (some r) = if r.status_code == 200 then name_of_body r.json else key_name null

pub identity : Fields → Value → Validation
identity user_data name =
    if truthy (get user_data "id")
    then accepted (record {
      user_id = get user_data "id";
      email = get user_data "email";
      name = get user_data "name";
      api_key_name = name;
      is_admin = truthy (get user_data "isAdmin");
    })
    else refused

pub with_key_name : Value → KeyName → Validation
unfolding identity
with_key_name user_data key_refused = refused
with_key_name user_data key_crashed = crashed
with_key_name user_data (key_name name) = elim (as_dict user_data) [
  | none ↦ crashed
  | some fields ↦ identity fields name
]

pub with_user_body : HttpGet → String → String → Option Value → Validation
unfolding with_key_name api_key_name
with_user_body http base_url api_key none = refused
with_user_body http base_url api_key (some user_data) =
    with_key_name user_data (api_key_name (http (concat base_url "/api-keys/me") api_key))

pub with_user_response : HttpGet → String → String → Option Response → Validation
unfolding with_user_body
with_user_response http base_url api_key none = refused
with_user_response http base_url api_key (some r) =
    if r.status_code == 200 then with_user_body http base_url api_key r.json else refused

-- `base_url` is the URL with its trailing slashes stripped.
unfoldable pub validate_immich_api_key : HttpGet → String → String → Validation
unfolding with_user_response
validate_immich_api_key http base_url api_key =
    with_user_response http base_url api_key (http (concat base_url "/users/me") api_key)
