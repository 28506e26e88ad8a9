-- ===== src/Authz/Grants.antt =====
-- What the standard grants confer: src/immich_bridge/authz.py, `has_capability` over them.
use immich_bridge.Prelude.{
  String, ◌≡◌, refl, Bool, true, false, ◌||◌, Option, none, some, List, [], ◌∷◌, ◌++◌, arith,
  str_eq, any, ◌&&◌, not,
}
use immich_bridge.Json.{Fields}
use immich_bridge.Authz.{
  Capability, browse, download, thumbnail, upload, manage_instance, library_admin_grant,
  superadmin_grant, share_guest_grant, ShareTerms, grant_allows, has_capability,
}

has_capability-any :
    (grants : List Fields) (c : Capability) (l : Option String)
    → has_capability grants c l ≡ any (λ g. grant_allows g c l) grants
unfolding has_capability
has_capability-any [] c l = refl
has_capability-any (g ∷ grants) c l = ground (arith, has_capability-any grants c l)

-- Grants are additive: a list of grants in two parts confers a capability on a library exactly when
-- one of the parts does.
pub has_capability-append :
    (gs hs : List Fields) (c : Capability) (l : Option String)
    → has_capability (gs ++ hs) c l ≡ (has_capability gs c l || has_capability hs c l)
unfolding has_capability
has_capability-append [] hs c l = refl
has_capability-append (g ∷ gs) hs c l = ground (arith, has_capability-append gs hs c l)

-- `manage_instance` is the one capability that a library admin lacks.
abbrev pub is_manage_instance : Capability → Bool
is_manage_instance manage_instance = true
is_manage_instance _ = false

-- `library_id is not None and granted == library_id`
abbrev pub same_library : String → Option String → Bool
same_library granted none = false
same_library granted (some l) = str_eq granted l

-- What a share guest may do in the shared library.
abbrev pub share_allows : ShareTerms → Capability → Bool
share_allows t browse = true
share_allows t thumbnail = true
share_allows t download = t.allow_download
share_allows t upload = t.allow_upload
share_allows t _ = false

-- The superadmin grant confers every capability, on every library and on none.
pub has_capability-superadmin_grant :
    (c : Capability) (l : Option String) → has_capability (superadmin_grant ∷ []) c l ≡ true
unfolding has_capability superadmin_grant grant_allows
has_capability-superadmin_grant browse l = refl
has_capability-superadmin_grant _ l = refl

-- A library admin's grant confers a capability exactly when the library asked about is the grant's
-- and the capability is not `manage_instance`.
pub has_capability-library_admin_grant :
    (library_id : String) (c : Capability) (l : Option String)
    → has_capability (library_admin_grant library_id ∷ []) c l
      ≡ (not (is_manage_instance c) && same_library library_id l)
unfolding has_capability library_admin_grant grant_allows
has_capability-library_admin_grant library_id browse l = ground arith
has_capability-library_admin_grant library_id _ l = ground arith

-- A share guest's grant confers a capability exactly when the library asked about is the grant's and
-- the capability is browsing, thumbnails, or what the link's terms allow of download and upload.
pub has_capability-share_guest_grant :
    (library_id : String) (t : ShareTerms) (c : Capability) (l : Option String)
    → has_capability (share_guest_grant library_id t ∷ []) c l
      ≡ (share_allows t c && same_library library_id l)
unfolding has_capability share_guest_grant grant_allows
has_capability-share_guest_grant library_id t browse l = ground arith
has_capability-share_guest_grant library_id t _ l = ground arith
