-- ===== src/Share/Identity.antt =====
-- src/immich_bridge/share_auth.py: what Immich says of a shared link, `validate_immich_share_link` and
-- `_identity_from_payload`. The HTTP client is a parameter.
use immich_bridge.Prelude.{
  ℕ, zero, suc, String, Bool, true, false, Option, none, some, ◌==◌, leb, if◌then◌else◌, concat,
}
use mathlib.Core.Option
use immich_bridge.Json.{
  ℤ, pos, Value, bool, int, str, Items, nil, cons, Fields, arr, end, find, get, truthy, as_dict,
}
use immich_bridge.Text.{codes, parse_int}
use immich_bridge.Paths.{rstrip_slash}
use immich_bridge.Provider.{present_key}
use immich_bridge.ImmichAuth.{Response, HttpGet}

pub record ShareIdentity : Type 0 where
  pub share_id : String
  pub name : String
  pub description : Option String
  pub allow_download : Bool
  pub allow_upload : Bool
  pub expires_at : Option String
  pub asset_count : Option ℤ
  pub album_id : Option String

-- `refused` is a `ShareLinkError`, `no_response` an exception of the HTTP client.
pub data ShareValidation : Type 0 where
  accepted : ShareIdentity → ShareValidation
  refused no_response : ShareValidation

-- `value if isinstance(value, str) else None`
abbrev pub text_only : Value → Option String
text_only (str s) = some s
text_only _ = none

-- `_optional_int`
unfoldable pub optional_int : Value → Option ℤ
optional_int (int z) = some z
optional_int (bool true) = some (pos 1)
optional_int (bool false) = some (pos 0)
optional_int (str s) = parse_int (codes s)
optional_int _ = none

abbrev count_items : Items → ℕ
count_items nil = zero
count_items (cons v vs) = suc (count_items vs)

-- The number of assets that came with the answer, if there are any.
unfoldable pub counted : Value → Option ℤ
counted (arr (cons v vs)) = some (pos (count_items (cons v vs)))
counted _ = none

unfoldable pub asset_count : Fields → Option ℤ
unfolding optional_int counted
asset_count payload = elim (optional_int (get payload "assetCount")) [
  | none ↦ counted (get payload "assets")
  | some n ↦ some n
]

-- `bool(payload.get(key, default))`
unfoldable pub flag_or : Fields → String → Bool → Bool
flag_or payload key default = elim (find payload key) [ none ↦ default | some v ↦ truthy v ]

-- The album of an answer, empty if there is none.
unfoldable pub album_of : Fields → Fields
album_of payload = Option.get_or (as_dict (get payload "album")) end

-- `str` of a value and `str.title`.
module _ (str_of : Value → String) (title : String → String) where
  unfoldable pub share_id : Fields → String
  share_id payload =
      if truthy (get payload "id")
      then str_of (get payload "id")
      else if truthy (get payload "key")
      then str_of (get payload "key")
      else "shared-link"

  unfoldable pub kind_name : Fields → String
  kind_name payload =
      let named = present_key (some (title (str_of (get payload "type")))) in
      if truthy (get payload "type") then Option.get_or named "Immich Share" else "Immich Share"

  unfoldable pub share_name : Fields → String
  unfolding kind_name album_of
  share_name payload = elim (present_key (text_only (get payload "description"))) [
    | some description ↦ description
    | none ↦
        Option.get_or (present_key (text_only (get (album_of payload) "albumName")))
          (kind_name payload)
  ]

  unfoldable pub identity_from_payload : Fields → ShareIdentity
  unfolding share_id share_name flag_or asset_count album_of
  identity_from_payload payload = record {
    share_id = share_id payload;
    name = share_name payload;
    description = text_only (get payload "description");
    allow_download = flag_or payload "allowDownload" true;
    allow_upload = flag_or payload "allowUpload" false;
    expires_at = text_only (get payload "expiresAt");
    asset_count = asset_count payload;
    album_id = text_only (get (album_of payload) "id");
  }

  unfoldable pub identity_of_json : Option Value → ShareValidation
  unfolding identity_from_payload
  identity_of_json none = refused
  identity_of_json (some body) = elim (as_dict body) [
    | none ↦ refused
    | some payload ↦ accepted (identity_from_payload payload)
  ]

  unfoldable pub identity_of_response : Option Response → ShareValidation
  unfolding identity_of_json
  identity_of_response none = no_response
  identity_of_response (some r) = if leb 400 r.status_code then refused else identity_of_json r.json

  -- A second address is asked only where the first answers 404.
  unfoldable pub first_successful_share_response : HttpGet → String → String → Option Response
  first_successful_share_response http base_url share_key =
      elim (http (concat base_url "/shared-link/me") share_key) [
        | none ↦ none
        | some r ↦
            if r.status_code == 404
            then http (concat base_url "/shared-links/me") share_key
            else some r
      ]

  unfoldable pub validate_immich_share_link : HttpGet → String → String → ShareValidation
  unfolding identity_of_response first_successful_share_response
  validate_immich_share_link http immich_url share_key =
      identity_of_response
        (first_successful_share_response http (rstrip_slash immich_url) share_key)
