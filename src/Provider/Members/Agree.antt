-- ===== src/Provider/Members/Agree.antt =====
-- src/immich_bridge/webdav_provider.py: the paths of collections and their members.
use immich_bridge.Prelude.{
  ℕ, String, ◌≡◌, sym, subst, ◌⊎◌, inl, inr, true, false, none, List, [], ◌∷◌, arith, elem, eq_iff,
}
use immich_bridge.Cache.{InMemoryCache}
use immich_bridge.Paths.{child_path, normalize, path_parts, split_slash, rstrip_slash}
use immich_bridge.Provider.{ok, ◌>>=◌, root, Environ, Provider}
use immich_bridge.Provider.Settings.{root_collection_names}
use immich_bridge.Provider.Names.{is_virtual_readme_path, is_macos_below}
use immich_bridge.Provider.Resolve.{
  resolve_albums, resolve_date_view, resolve_saved_view, or_receipt, resolve_first, resolve_parts,
  get_resource_inst,
}
use immich_bridge.Provider.Members.{get_member, get_member_names, root_member}

-- The four collections that the settings can hide.
abbrev pub hideable : List String
hideable = "Albums" ∷ "Timeline" ∷ "Favorites" ∷ "Views" ∷ []

-- A collection that the settings can hide and the root does not list cannot be reached: no path
-- through it, other than a README's or one to a file of macOS metadata, resolves to anything.
pub hidden_is_unreachable :
    (p : Provider) (env : Environ) (now : ℕ) (path first : String) (rest : List String)
    (cache : InMemoryCache)
    → path_parts (normalize path) ≡ first ∷ rest
    → elem first hideable ≡ true
    → (get_member_names p env (root "/") >>= λ names. ok (elem first names)) ≡ ok false
    → is_virtual_readme_path (first ∷ rest) ≡ false
    → is_macos_below rest ≡ false
    → get_resource_inst p env now path cache ≡ (ok none, cache)
unfolding get_resource_inst resolve_parts resolve_first get_member_names
hidden_is_unreachable p env now path first rest cache parts four hidden no_readme no_metadata =
    rw parts (rw (no_readme, no_metadata) (ground arith))

-- Opening `path` gives what the root gives for `name`, if the root lists it.
abbrev Reached : Provider → Environ → ℕ → InMemoryCache → String → Type 0
Reached p env now cache name =
    elem name (root_collection_names p) ≡ true
    → get_resource_inst p env now (child_path "/" name) cache
      ≡ (get_member p env (root "/") name, cache)

reach_albums :
    (p : Provider) (env : Environ) (now : ℕ) (cache : InMemoryCache)
    → Reached p env now cache "Albums"
unfolding get_resource_inst resolve_parts resolve_first resolve_albums or_receipt get_member
    root_member child_path path_parts normalize split_slash rstrip_slash is_virtual_readme_path
    is_macos_below
reach_albums p env now cache l = ground arith

reach_timeline :
    (p : Provider) (env : Environ) (now : ℕ) (cache : InMemoryCache)
    → Reached p env now cache "Timeline"
unfolding get_resource_inst resolve_parts resolve_first resolve_date_view or_receipt get_member
    root_member child_path path_parts normalize split_slash rstrip_slash is_virtual_readme_path
    is_macos_below
reach_timeline p env now cache l = ground arith

reach_favorites :
    (p : Provider) (env : Environ) (now : ℕ) (cache : InMemoryCache)
    → Reached p env now cache "Favorites"
unfolding get_resource_inst resolve_parts resolve_first resolve_date_view or_receipt get_member
    root_member child_path path_parts normalize split_slash rstrip_slash is_virtual_readme_path
    is_macos_below
reach_favorites p env now cache l = ground arith

reach_views :
    (p : Provider) (env : Environ) (now : ℕ) (cache : InMemoryCache)
    → Reached p env now cache "Views"
unfolding get_resource_inst resolve_parts resolve_first resolve_saved_view or_receipt get_member
    root_member child_path path_parts normalize split_slash rstrip_slash is_virtual_readme_path
    is_macos_below
reach_views p env now cache l = ground arith

-- Opening a collection that the settings can hide and the root lists gives what the root gives for
-- its name.
pub listed_is_reachable :
    (p : Provider) (env : Environ) (now : ℕ) (name : String) (cache : InMemoryCache)
    → elem name hideable ≡ true
    → elem name (root_collection_names p) ≡ true
    → get_resource_inst p env now (child_path "/" name) cache
      ≡ (get_member p env (root "/") name, cache)
listed_is_reachable p env now name cache four listed = elim (one_of name four) [
  | inl e ↦ subst (Reached p env now cache) (sym e) (reach_albums p env now cache) listed
  | inr (inl e) ↦ subst (Reached p env now cache) (sym e) (reach_timeline p env now cache) listed
  | inr (inr (inl e)) ↦
      subst (Reached p env now cache) (sym e) (reach_favorites p env now cache) listed
  | inr (inr (inr e)) ↦ subst (Reached p env now cache) (sym e) (reach_views p env now cache) listed
]
  where
    one_of :
        (n : String)
        → elem n hideable ≡ true
        → (n ≡ "Albums") ⊎ ((n ≡ "Timeline") ⊎ ((n ≡ "Favorites") ⊎ (n ≡ "Views")))
    one_of n h =
        ground
          (arith, eq_iff "Albums" n, eq_iff "Timeline" n, eq_iff "Favorites" n, eq_iff "Views" n)
