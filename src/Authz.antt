-- ===== src/Authz.antt =====
-- src/immich_bridge/authz.py: capabilities and the grants that carry them. Tokens are in a child.
pub mod Grants
pub mod Tokens
mod Tests
use immich_bridge.Prelude.{
  String, Bool, true, false, ◌&&◌, ◌||◌, Option, none, some, List, [], ◌∷◌, ◌++◌, str_eq,
  if◌then◌else◌,
}
use immich_bridge.Json.{
  Value, Items, Fields, null, bool, str, arr, obj, int, nil, cons, end, field, get, is_text,
  has_text, ℤ,
}

-- The capability literals.
pub data Capability : Type 0 where
  browse download thumbnail upload manage_views manage_policy manage_library manage_instance
        diagnostics :
      Capability

-- The string that a literal is.
abbrev pub capability_name : Capability → String
capability_name browse = "browse"
capability_name download = "download"
capability_name thumbnail = "thumbnail"
capability_name upload = "upload"
capability_name manage_views = "manage_views"
capability_name manage_policy = "manage_policy"
capability_name manage_library = "manage_library"
capability_name manage_instance = "manage_instance"
capability_name diagnostics = "diagnostics"

abbrev pub library_admin_capabilities : List Capability
library_admin_capabilities =
    browse ∷ download ∷ thumbnail ∷ upload ∷ manage_views ∷ manage_policy ∷ manage_library
    ∷ diagnostics ∷ []

abbrev pub share_guest_base_capabilities : List Capability
share_guest_base_capabilities = browse ∷ thumbnail ∷ []

abbrev pub superadmin_capabilities : List Capability
superadmin_capabilities = library_admin_capabilities ++ manage_instance ∷ []

-- A list of capabilities as the JSON list that a grant holds.
abbrev pub capability_items : List Capability → Items
capability_items [] = nil
capability_items (c ∷ cs) = cons (str (capability_name c)) (capability_items cs)

pub library_admin_grant : String → Fields
library_admin_grant library_id = field "scope" (str "library") (
    field "library_id" (str library_id)
      (field "capabilities" (arr (capability_items library_admin_capabilities)) end))

pub superadmin_grant : Fields
superadmin_grant = field "scope" (str "instance") (
    field "library_id" null
      (field "capabilities" (arr (capability_items superadmin_capabilities)) end))

pub share_guest_capabilities : Bool → Bool → List Capability
share_guest_capabilities allow_download allow_upload =
    share_guest_base_capabilities
    ++ (if allow_download then download ∷ [] else [])
    ++ (if allow_upload then upload ∷ [] else [])

-- The keyword arguments of `share_guest_grant`.
pub record ShareTerms : Type 0 where
  pub share_id : String
  pub share_name : String
  pub share_key_hash : String
  pub allow_download : Bool
  pub allow_upload : Bool
  pub expires_at : Option String
  pub asset_count : Option ℤ

abbrev optional_text : Option String → Value
optional_text none = null
optional_text (some s) = str s

abbrev optional_count : Option ℤ → Value
optional_count none = null
optional_count (some n) = int n

pub share_guest_grant : String → ShareTerms → Fields
unfolding share_guest_capabilities
share_guest_grant library_id t = field "scope" (str "share") (
    field "library_id" (str library_id) (
      field "share_id" (str t.share_id) (
        field "share_name" (str t.share_name) (
          field "share_key_hash" (str t.share_key_hash) (
            field "allow_download" (bool t.allow_download) (
              field "allow_upload" (bool t.allow_upload) (
                field "asset_count" (optional_count t.asset_count) (
                  field "expires_at" (optional_text t.expires_at) (
                    field "capabilities"
                      (arr (
                        capability_items
                          (share_guest_capabilities t.allow_download t.allow_upload)))
                      end)))))))))

-- `isinstance(capabilities, list) and capability in capabilities`
abbrev pub lists_capability : Value → Capability → Bool
lists_capability (arr items) c = has_text items (capability_name c)
lists_capability _ c = false

-- `library_id is not None and value == library_id`
abbrev pub is_library : Value → Option String → Bool
is_library v none = false
is_library v (some library_id) = is_text v library_id

-- The body of the loop of `has_capability` on one grant.
pub grant_allows : Fields → Capability → Option String → Bool
grant_allows grant c library_id =
    if lists_capability (get grant "capabilities") c
    then is_text (get grant "scope") "instance" || is_library (get grant "library_id") library_id
    else false

pub has_capability : List Fields → Capability → Option String → Bool
has_capability [] c library_id = false
has_capability (grant ∷ grants) c library_id =
    let rest = has_capability grants c library_id in
    if grant_allows grant c library_id then true else rest
