-- ===== src/ImmichAuth/Tests.antt =====
-- A concrete validation of an API key.
use immich_bridge.Prelude.{refl, false, some, str_eq, if◌then◌else◌}
use immich_bridge.Json.{null, str, obj, end, field}
use immich_bridge.ImmichAuth.{
  ImmichIdentity, HttpGet, name_of_body, api_key_name, identity, with_key_name, with_user_body,
  with_user_response, validate_immich_api_key,
}
use immich_bridge.ImmichAuth.Laws.{IsKnown, accepted-IsKnown}

abbrev server : HttpGet
server url key =
    if str_eq url "http://i/users/me"
    then some (record { status_code = 200; json = some (obj (field "id" (str "u1") end)) })
    else some (record { status_code = 200; json = some (obj (field "name" (str "laptop") end)) })

abbrev ann : ImmichIdentity
ann = record {
  user_id = str "u1";
  email = null;
  name = null;
  api_key_name = str "laptop";
  is_admin = false;
}

accepted-IsKnown_example : IsKnown server "http://i" "key" ann
unfolding validate_immich_api_key with_user_response with_user_body with_key_name api_key_name
    name_of_body identity
accepted-IsKnown_example = accepted-IsKnown server "http://i" "key" ann refl
