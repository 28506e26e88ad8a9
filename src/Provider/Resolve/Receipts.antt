-- ===== src/Provider/Resolve/Receipts.antt =====
-- src/immich_bridge/webdav_provider.py, `get_resource_inst`: the paths that only a receipt answers.
use immich_bridge.Prelude.{
  ℕ, String, ◌≡◌, ◌⊎◌, ◌≢◌, ◌∙◌, inl, inr, refl, ap, str_eq_ne, true, false, none, some, List, ◌∷◌,
  elem, subst, sym,
}
use immich_bridge.Cache.{InMemoryCache}
use immich_bridge.Paths.{normalize, path_parts}
use immich_bridge.Provider.{ok, Resource, Environ, Provider}
use immich_bridge.Provider.Settings.{root_collection_names, upload_receipt_resource}
use immich_bridge.Provider.Names.{is_virtual_readme_path, is_macos_below}
use immich_bridge.Provider.Resolve.{
  resolve_albums, or_receipt, resolve_first, resolve_parts, get_resource_inst,
}

-- The name of no collection of the root.
abbrev pub IsOther : String → Type 0
IsOther first =
    (first ≢ "Albums")
    × (first ≢ "Timeline")
    × (first ≢ "Favorites")
    × (first ≢ "Views")
    × (first ≢ ".well-known")

module _ (p : Provider) (env : Environ) where
  -- Nothing but a receipt can answer the path: it is no README and no macOS metadata, and names
  -- no collection of the root, or nothing that is in the albums now.
  pub record IsUnclaimed (path : String) : Type 0 where
    pub normal : normalize path ≡ path
    pub first : String
    pub rest : List String
    pub parts : path_parts path ≡ first ∷ rest
    pub no_readme : is_virtual_readme_path (first ∷ rest) ≡ false
    pub no_metadata : is_macos_below rest ≡ false
    pub place :
        IsOther first
        ⊎ ((first ≡ "Albums")
            × (elem "Albums" (root_collection_names p) ≡ true)
            × (resolve_albums p env path rest ≡ ok none))

  first_asks_receipts :
      (path first : String) (rest : List String) (now : ℕ) (cache : InMemoryCache)
      → IsOther first
        ⊎ ((first ≡ "Albums")
            × (elem "Albums" (root_collection_names p) ≡ true)
            × (resolve_albums p env path rest ≡ ok none))
      → resolve_first p env path now cache first rest ≡ or_receipt p env path now cache (ok none)
  unfolding resolve_first
  first_asks_receipts path first rest now cache (inl (a, t, f, v, w)) =
      rw
        (
          str_eq_ne "Albums" first (λ e. a (sym e)),
          str_eq_ne "Timeline" first (λ e. t (sym e)),
          str_eq_ne "Favorites" first (λ e. f (sym e)),
          str_eq_ne "Views" first (λ e. v (sym e)),
          str_eq_ne first "Albums" a,
          str_eq_ne first "Timeline" t,
          str_eq_ne first "Favorites" f,
          str_eq_ne first "Views" v,
          str_eq_ne first ".well-known" w,
        )
        refl
  first_asks_receipts path first rest now cache (inr (albums, shown, missing)) =
      subst
        (λ (n : String).
          resolve_first p env path now cache n rest ≡ or_receipt p env path now cache (ok none))
        (sym albums) (rw (shown, missing) refl)

  pub asks_receipts :
      (path : String) (now : ℕ) (cache : InMemoryCache)
      → IsUnclaimed path
      → get_resource_inst p env now path cache ≡ or_receipt p env path now cache (ok none)
  unfolding get_resource_inst resolve_parts
  asks_receipts path now cache u =
      rw (u.normal, u.parts)
        (rw (u.no_readme, u.no_metadata)
          (first_asks_receipts path u.first u.rest now cache u.place))

  pub receipt_answers :
      (path : String) (now : ℕ) (cache : InMemoryCache) (r : Resource)
      → IsUnclaimed path
      → (upload_receipt_resource p now path env cache).0 ≡ some r
      → (get_resource_inst p env now path cache).0 ≡ ok (some r)
  unfolding or_receipt
  receipt_answers path now cache r u e = ap (λ x. x.0) (asks_receipts path now cache u) ∙ ap ok e
