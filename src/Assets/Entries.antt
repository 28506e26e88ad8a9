-- ===== src/Assets/Entries.antt =====
-- src/immich_bridge/fs_model.py, `asset_entries`: the files of a folder.
use immich_bridge.Prelude.{
  String, ◌≡◌, ◌≢◌, ◌⊎◌, refl, sym, ◌∙◌, inl, inr, none, some, List, [], ◌∷◌, Bool-cases, str_eq_ne,
  str_eq_refl,
}
use immich_bridge.Dict.{Dict, lookup, insert}
use immich_bridge.Dict.Laws.{lookup-insert}
use immich_bridge.Provider.{Provider, Asset}
use immich_bridge.Assets.{
  Formats, asset_display_name, sorts_before, insert_asset, sorted_assets, entry_name, add_entries,
  asset_entries,
}

-- The asset is one of the list.
abbrev pub In : Asset → List Asset → Type 0
In a [] = ⊥
In a (x ∷ xs) = (a ≡ x) ⊎ In a xs

skip_second : {P Q R S : Type 0} → (P ⊎ R → S) → P ⊎ (Q ⊎ R) → Q ⊎ S
skip_second f (inl p) = inr (f (inl p))
skip_second f (inr (inl q)) = inl q
skip_second f (inr (inr r)) = inr (f (inr r))

module _ (p : Provider) (f : Formats) where
  abbrev name_of : Asset → String
  name_of = asset_display_name p f

  -- No asset of the list has the name.
  abbrev NoneNamed : String → List Asset → Type 0
  NoneNamed name [] = Unit
  NoneNamed name (x ∷ xs) = (name ≢ name_of x) × NoneNamed name xs

  -- No two assets of the list have one display name.
  abbrev pub IsDistinct : List Asset → Type 0
  IsDistinct [] = Unit
  IsDistinct (x ∷ xs) = NoneNamed (name_of x) xs × IsDistinct xs

  insert_asset-NoneNamed :
      (name : String) (a : Asset) (xs : List Asset)
      → name ≢ name_of a
      → NoneNamed name xs
      → NoneNamed name (insert_asset p f a xs)
  unfolding insert_asset
  insert_asset-NoneNamed name a [] h n = (h, tt)
  insert_asset-NoneNamed name a (x ∷ xs) h n = elim (Bool-cases (sorts_before p f a x)) [
    | inl first ↦ rw first (h, n)
    | inr later ↦ rw later (n.0, insert_asset-NoneNamed name a xs h n.1)
  ]

  insert_asset-IsDistinct :
      (a : Asset) (xs : List Asset)
      → NoneNamed (name_of a) xs
      → IsDistinct xs
      → IsDistinct (insert_asset p f a xs)
  unfolding insert_asset
  insert_asset-IsDistinct a [] n d = (tt, tt)
  insert_asset-IsDistinct a (x ∷ xs) n d = elim (Bool-cases (sorts_before p f a x)) [
    | inl first ↦ rw first (n, d)
    | inr later ↦ rw later (
      insert_asset-NoneNamed (name_of x) a xs (λ e. n.0 (sym e)) d.0,
      insert_asset-IsDistinct a xs n.1 d.1,
    )
  ]

  sorted-NoneNamed :
      (name : String) (xs : List Asset) → NoneNamed name xs → NoneNamed name (sorted_assets p f xs)
  unfolding sorted_assets
  sorted-NoneNamed name [] n = tt
  sorted-NoneNamed name (x ∷ xs) n =
      insert_asset-NoneNamed name x (sorted_assets p f xs) n.0 (sorted-NoneNamed name xs n.1)

  sorted-IsDistinct : (xs : List Asset) → IsDistinct xs → IsDistinct (sorted_assets p f xs)
  unfolding sorted_assets
  sorted-IsDistinct [] d = tt
  sorted-IsDistinct (x ∷ xs) d =
      insert_asset-IsDistinct x (sorted_assets p f xs) (sorted-NoneNamed (name_of x) xs d.0)
        (sorted-IsDistinct xs d.1)

  In-insert_asset :
      (b a : Asset) (xs : List Asset) → (b ≡ a) ⊎ In b xs → In b (insert_asset p f a xs)
  unfolding insert_asset
  In-insert_asset b a [] h = h
  In-insert_asset b a (x ∷ xs) h = elim (Bool-cases (sorts_before p f a x)) [
    | inl first ↦ rw first h
    | inr later ↦ rw later (skip_second (In-insert_asset b a xs) h)
  ]

  pub In-sorted : (b : Asset) (xs : List Asset) → In b xs → In b (sorted_assets p f xs)
  unfolding sorted_assets
  In-sorted b [] i = absurd i
  In-sorted b (x ∷ xs) (inl e) = In-insert_asset b x (sorted_assets p f xs) (inl e)
  In-sorted b (x ∷ xs) (inr i) = In-insert_asset b x (sorted_assets p f xs) (inr (In-sorted b xs i))

  entry_name_new :
      (entries : Dict Asset) (a : Asset)
      → lookup (name_of a) entries ≡ none
      → entry_name p f entries a ≡ name_of a
  unfolding entry_name
  entry_name_new entries a e = rw (entry_name, e) refl

  -- Every asset of the list is free in the dictionary.
  abbrev AllFree : Dict Asset → List Asset → Type 0
  AllFree entries [] = Unit
  AllFree entries (x ∷ xs) = (lookup (name_of x) entries ≡ none) × AllFree entries xs

  AllFree-insert :
      (a : Asset) (entries : Dict Asset) (xs : List Asset)
      → NoneNamed (name_of a) xs
      → AllFree entries xs
      → AllFree (insert (name_of a) a entries) xs
  AllFree-insert a entries [] n free = tt
  AllFree-insert a entries (x ∷ xs) n free = (
    lookup-insert (name_of a) (name_of x) a entries
        ∙ rw (str_eq_ne (name_of a) (name_of x) n.0) free.0,
    AllFree-insert a entries xs n.1 free.1,
  )

  lookup-add_entries :
      (name : String) (entries : Dict Asset) (xs : List Asset)
      → IsDistinct xs
      → AllFree entries xs
      → NoneNamed name xs
      → lookup name (add_entries p f entries xs) ≡ lookup name entries
  unfolding add_entries
  lookup-add_entries name entries [] d free n = refl
  lookup-add_entries name entries (x ∷ xs) d free n = rw (entry_name_new entries x free.0) (
      lookup-add_entries name (insert (name_of x) x entries) xs d.1
        (AllFree-insert x entries xs d.0 free.1) n.1
      ∙ (lookup-insert (name_of x) name x entries
          ∙ rw (str_eq_ne (name_of x) name (λ e. n.0 (sym e))) refl))

  added-In :
      (a : Asset) (entries : Dict Asset) (xs : List Asset)
      → IsDistinct xs
      → AllFree entries xs
      → In a xs
      → lookup (name_of a) (add_entries p f entries xs) ≡ some a
  unfolding add_entries
  added-In a entries [] d free i = absurd i
  added-In a entries (x ∷ xs) d free (inl e) =
      rw (entry_name_new entries x free.0, e)
        (lookup-add_entries (name_of x) (insert (name_of x) x entries) xs d.1
            (AllFree-insert x entries xs d.0 free.1) d.0
          ∙ (lookup-insert (name_of x) (name_of x) x entries ∙ rw (str_eq_refl (name_of x)) refl))
  added-In a entries (x ∷ xs) d free (inr i) =
      rw (entry_name_new entries x free.0) (
        added-In a (insert (name_of x) x entries) xs d.1 (AllFree-insert x entries xs d.0 free.1) i)

  AllFree-none : (xs : List Asset) → AllFree [] xs
  unfolding lookup
  AllFree-none [] = tt
  AllFree-none (x ∷ xs) = (refl, AllFree-none xs)

  -- If no two assets of a folder have the same display name, every one of them is found in the folder
  -- under its display name.
  pub asset_entries_complete :
      (a : Asset) (assets : List Asset)
      → IsDistinct assets
      → In a assets
      → lookup (asset_display_name p f a) (asset_entries p f assets) ≡ some a
  unfolding asset_entries
  asset_entries_complete a assets d i =
      added-In a [] (sorted_assets p f assets) (sorted-IsDistinct assets d) (AllFree-none _)
        (In-sorted a assets i)
