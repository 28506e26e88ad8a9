-- ===== src/Assets/Collisions.antt =====
-- src/immich_bridge/fs_model.py, `asset_entries`: assets that share a display name.
use immich_bridge.Prelude.{
  String, ◌≡◌, ◌≢◌, ◌⊎◌, refl, sym, subst, ap, ◌∙◌, inl, inr, none, some, List, [], ◌∷◌, arith,
  Bool-cases, Option-cases, str_eq, eq_iff, str_eq_ne, str_eq_refl,
}
use immich_bridge.Dict.{Dict, lookup, insert}
use immich_bridge.Dict.Laws.{lookup-insert}
use immich_bridge.Provider.{Provider, Asset}
use immich_bridge.Assets.{
  Formats, asset_display_name, longer_name, sorts_before, insert_asset, sorted_assets, entry_name,
  add_entries, asset_entries,
}
use immich_bridge.Assets.Entries.{In, In-sorted}

-- An insertion at a key that is free changes no entry.
insert_kept :
    (n m : String) (x v : Asset) (entries : Dict Asset)
    → lookup n entries ≡ none
    → lookup m entries ≡ some v
    → lookup m (insert n x entries) ≡ some v
insert_kept n m x v entries free e = elim (Bool-cases (str_eq n m)) [
  | inl same ↦
      let both : lookup n entries ≡ some v = rw (← (eq_iff n m).0 same) at e in
      absurd (ground arith)
  | inr other ↦ lookup-insert n m x entries ∙ rw other e
]

module _ (p : Provider) (f : Formats) where
  abbrev name_of : Asset → String
  name_of = asset_display_name p f

  -- The name that an asset gets where its display name is taken.
  abbrev pub longer : Asset → String
  longer a = longer_name p f a (name_of a)

  -- The longer name of neither is a name of the other.
  abbrev Apart : Asset → Asset → Type 0
  Apart x y = (longer x ≢ longer y) × (longer x ≢ name_of y) × (longer y ≢ name_of x)

  abbrev AllApart : Asset → List Asset → Type 0
  AllApart a [] = Unit
  AllApart a (x ∷ xs) = Apart a x × AllApart a xs

  -- No longer name of an asset of the list is the display name or the longer name of another.
  abbrev pub IsUnmixed : List Asset → Type 0
  IsUnmixed [] = Unit
  IsUnmixed (x ∷ xs) = AllApart x xs × IsUnmixed xs

  Apart-sym : (x y : Asset) → Apart x y → Apart y x
  Apart-sym x y (a, b, c) = (λ e. a (sym e), c, b)

  insert_asset-AllApart :
      (b a : Asset) (xs : List Asset)
      → Apart b a
      → AllApart b xs
      → AllApart b (insert_asset p f a xs)
  unfolding insert_asset
  insert_asset-AllApart b a [] h n = (h, tt)
  insert_asset-AllApart b a (x ∷ xs) h n = elim (Bool-cases (sorts_before p f a x)) [
    | inl first ↦ rw first (h, n)
    | inr later ↦ rw later (n.0, insert_asset-AllApart b a xs h n.1)
  ]

  insert_asset-IsUnmixed :
      (a : Asset) (xs : List Asset)
      → AllApart a xs
      → IsUnmixed xs
      → IsUnmixed (insert_asset p f a xs)
  unfolding insert_asset
  insert_asset-IsUnmixed a [] n d = (tt, tt)
  insert_asset-IsUnmixed a (x ∷ xs) n d = elim (Bool-cases (sorts_before p f a x)) [
    | inl first ↦ rw first (n, d)
    | inr later ↦
        rw later (
          insert_asset-AllApart x a xs (Apart-sym a x n.0) d.0,
          insert_asset-IsUnmixed a xs n.1 d.1,
        )
  ]

  sorted-AllApart :
      (b : Asset) (xs : List Asset) → AllApart b xs → AllApart b (sorted_assets p f xs)
  unfolding sorted_assets
  sorted-AllApart b [] n = tt
  sorted-AllApart b (x ∷ xs) n =
      insert_asset-AllApart b x (sorted_assets p f xs) n.0 (sorted-AllApart b xs n.1)

  sorted-IsUnmixed : (xs : List Asset) → IsUnmixed xs → IsUnmixed (sorted_assets p f xs)
  unfolding sorted_assets
  sorted-IsUnmixed [] d = tt
  sorted-IsUnmixed (x ∷ xs) d =
      insert_asset-IsUnmixed x (sorted_assets p f xs) (sorted-AllApart x xs d.0)
        (sorted-IsUnmixed xs d.1)

  -- The longer names of the list are free in the dictionary.
  abbrev LongFree : Dict Asset → List Asset → Type 0
  LongFree entries [] = Unit
  LongFree entries (x ∷ xs) = (lookup (longer x) entries ≡ none) × LongFree entries xs

  LongFree-none : (xs : List Asset) → LongFree [] xs
  unfolding lookup
  LongFree-none [] = tt
  LongFree-none (x ∷ xs) = (refl, LongFree-none xs)

  new_name :
      (entries : Dict Asset) (x : Asset)
      → lookup (name_of x) entries ≡ none
      → entry_name p f entries x ≡ name_of x
  unfolding entry_name
  new_name entries x e = rw (entry_name, e) refl

  taken_name :
      (entries : Dict Asset) (x b : Asset)
      → lookup (name_of x) entries ≡ some b
      → entry_name p f entries x ≡ longer x
  unfolding entry_name
  taken_name entries x b e = rw (entry_name, e) refl

  free_name :
      (entries : Dict Asset) (x : Asset)
      → lookup (longer x) entries ≡ none
      → lookup (entry_name p f entries x) entries ≡ none
  free_name entries x free = elim (Option-cases (lookup (name_of x) entries)) [
    | inl new ↦ ap (λ n. lookup n entries) (new_name entries x new) ∙ new
    | inr (b, taken) ↦ ap (λ n. lookup n entries) (taken_name entries x b taken) ∙ free
  ]

  -- The name that was given to an asset is not the longer name of another.
  given_name-Apart :
      (entries : Dict Asset) (x y : Asset) → Apart x y → entry_name p f entries x ≢ longer y
  given_name-Apart entries x y (a, b, c) = elim (Option-cases (lookup (name_of x) entries)) [
    | inl new ↦ λ e. c (sym (sym (new_name entries x new) ∙ e))
    | inr (other, taken) ↦ λ e. a (sym (taken_name entries x other taken) ∙ e)
  ]

  LongFree-insert :
      (x : Asset) (entries : Dict Asset) (xs : List Asset)
      → AllApart x xs
      → LongFree entries xs
      → LongFree (insert (entry_name p f entries x) x entries) xs
  LongFree-insert x entries [] n free = tt
  LongFree-insert x entries (y ∷ ys) n free = (
    lookup-insert (entry_name p f entries x) (longer y) x entries
        ∙ rw (str_eq_ne (entry_name p f entries x) (longer y) (given_name-Apart entries x y n.0))
            free.0,
    LongFree-insert x entries ys n.1 free.1,
  )

  -- What is in the dictionary stays.
  add_entries-kept :
      (m : String) (v : Asset) (entries : Dict Asset) (xs : List Asset)
      → IsUnmixed xs
      → LongFree entries xs
      → lookup m entries ≡ some v
      → lookup m (add_entries p f entries xs) ≡ some v
  unfolding add_entries
  add_entries-kept m v entries [] d free e = e
  add_entries-kept m v entries (x ∷ xs) d free e =
      add_entries-kept m v (insert (entry_name p f entries x) x entries) xs d.1
        (LongFree-insert x entries xs d.0 free.1)
        (insert_kept (entry_name p f entries x) m x v entries (free_name entries x free.0) e)

  -- The asset is found under its display name, or another one is, and the asset is found under its
  -- longer name.
  abbrev pub IsListedIn : Asset → Dict Asset → Type 0
  IsListedIn a entries =
      (lookup (name_of a) entries ≡ some a)
      ⊎ ((b : Asset) × (lookup (name_of a) entries ≡ some b) × (lookup (longer a) entries ≡ some a))

  first_listed :
      (x : Asset) (entries : Dict Asset) (xs : List Asset)
      → IsUnmixed (x ∷ xs)
      → LongFree entries (x ∷ xs)
      → IsListedIn x (add_entries p f entries (x ∷ xs))
  unfolding add_entries
  first_listed x entries xs d free =
      let after = insert (entry_name p f entries x) x entries in
      let kept = λ (m : String) (v : Asset).
        add_entries-kept m v after xs d.1 (LongFree-insert x entries xs d.0 free.1) in
      let here : lookup (entry_name p f entries x) after ≡ some x =
        lookup-insert (entry_name p f entries x) (entry_name p f entries x) x entries
        ∙ rw (str_eq_refl (entry_name p f entries x)) refl in
      elim (Option-cases (lookup (name_of x) entries)) [
        | inl new ↦
            let same : entry_name p f entries x ≡ name_of x = new_name entries x new in
            inl (kept (name_of x) x (ap (λ n. lookup n after) (sym same) ∙ here))
        | inr (b, taken) ↦
            let same : entry_name p f entries x ≡ longer x = taken_name entries x b taken in
            inr (
              b,
              kept (name_of x) b (
                  insert_kept (entry_name p f entries x) (name_of x) x b entries
                    (free_name entries x free.0) taken),
              kept (longer x) x (ap (λ n. lookup n after) (sym same) ∙ here),
            )
      ]

  added_listed :
      (a : Asset) (entries : Dict Asset) (xs : List Asset)
      → IsUnmixed xs
      → LongFree entries xs
      → In a xs
      → IsListedIn a (add_entries p f entries xs)
  unfolding add_entries
  added_listed a entries [] d free i = absurd i
  added_listed a entries (x ∷ xs) d free (inl e) =
      subst (λ (b : Asset). IsListedIn b (add_entries p f entries (x ∷ xs))) (sym e)
        (first_listed x entries xs d free)
  added_listed a entries (x ∷ xs) d free (inr i) =
      added_listed a (insert (entry_name p f entries x) x entries) xs d.1
        (LongFree-insert x entries xs d.0 free.1) i

  -- If no longer name of an asset of a folder is a name of another, every asset is found in the folder,
  -- under its display name, or, where another asset has that, under its longer name.
  pub asset_entries_listed :
      (a : Asset) (assets : List Asset)
      → IsUnmixed assets
      → In a assets
      → IsListedIn a (asset_entries p f assets)
  unfolding asset_entries
  asset_entries_listed a assets d i =
      added_listed a [] (sorted_assets p f assets) (sorted-IsUnmixed assets d) (LongFree-none _)
        (In-sorted p f a assets i)
