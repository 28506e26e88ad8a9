-- ===== src/Authz/Tests.antt =====
-- Concrete runs of src/immich_bridge/authz.py: tokens with a small codec in place of the JSON and
-- HMAC ones, and the standard grants.
use immich_bridge.Prelude.{
  ℕ, ◌≡◌, refl, true, false, none, some, [], ◌∷◌, ◌++◌, ◌+◌, arith, length, ◌&&◌,
}
use immich_bridge.Json.{pos, Fields, int, obj, end, field}
use immich_bridge.Authz.{
  browse, upload, download, ShareTerms, has_capability, library_admin_grant, share_guest_grant,
}
use immich_bridge.Authz.Grants.{has_capability-share_guest_grant, same_library, share_allows}
use immich_bridge.Authz.Tokens.{Codec, Session, payload, sign_grants, verify_grants_token}
use immich_bridge.Authz.Tokens.Laws.{IsSigned, verify-sign, verify_sound}
use immich_bridge.Text.{codes}

abbrev guest_terms : ShareTerms
guest_terms = record {
  share_id = "s1";
  share_name = "Trip";
  share_key_hash = "h";
  allow_download = true;
  allow_upload = false;
  expires_at = none;
  asset_count = none;
}

-- The payload is its number of fields, the HMAC the secret's characters before the payload.
abbrev count_fields : Fields → ℕ
count_fields end = 0
count_fields (field k v fs) = 1 + count_fields fs

abbrev small_codec : Codec
small_codec = record {
  hmac = λ secret bytes. codes secret ++ bytes;
  canonical_json = λ fields. count_fields fields ∷ [];
  loads = λ bytes. some (obj (field "length" (int (pos (length bytes))) end));
}

abbrev session : Session
session = record {
  session_id = "sid";
  principal_id = "ann";
  principal_kind = "admin";
  grants = library_admin_grant "lib" ∷ [];
  expires_at = "2030-01-01";
}

abbrev read_back : Fields
read_back = field "length" (int (pos 1)) end

verify-sign_example :
    verify_grants_token small_codec "k" (sign_grants small_codec "k" session) ≡ some read_back
unfolding payload
verify-sign_example =
    verify-sign small_codec "k" session read_back (omega arith, tt) (omega arith, (omega arith, tt))
      refl

verify_sound_example : IsSigned small_codec "k" (sign_grants small_codec "k" session) read_back
verify_sound_example =
    verify_sound small_codec "k" (sign_grants small_codec "k" session) read_back verify-sign_example

-- A guest may browse, may download as the link says, may not upload, and nothing elsewhere.
guest_may_download :
    has_capability (share_guest_grant "lib" guest_terms ∷ []) download (some "lib") ≡ true
guest_may_download = has_capability-share_guest_grant "lib" guest_terms download (some "lib")

guest_may_not_upload :
    has_capability (share_guest_grant "lib" guest_terms ∷ []) upload (some "lib") ≡ false
guest_may_not_upload = has_capability-share_guest_grant "lib" guest_terms upload (some "lib")

has_capability-share_guest_grant_example :
    has_capability (share_guest_grant "lib" guest_terms ∷ []) browse (some "lib2")
    ≡ (share_allows guest_terms browse && same_library "lib" (some "lib2"))
has_capability-share_guest_grant_example =
    has_capability-share_guest_grant "lib" guest_terms browse (some "lib2")
