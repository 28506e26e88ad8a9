-- ===== src/Albums/Complete.antt =====
-- src/immich_bridge/fs_model.py, `album_entries`: the albums that are listed.
use immich_bridge.Prelude.{
  append_assoc, append_nil, String, ◌≡◌, refl, ap, inl, inr, List, [], ◌∷◌, ◌++◌, map, str_eq,
  Bool-cases, subst,
}
use Prim.Native.String.{compare}
use text.Mathlib.Text.{is_le}
use immich_bridge.Json.{Fields}
use immich_bridge.Dict.{Dict}
use immich_bridge.Provider.{AlbumEntry, Provider}
use immich_bridge.Albums.{
  add_to, album_base, grouped, suffixed_entries, group_entries, all_entries, insert_entry,
  sorted_entries, album_entries,
}
use mathlib.Core.List.Perm
use mathlib.Core.List.{Perm, perm_middle}

-- The groups, one after the other.
abbrev flat {ℓ} : {A : Type ℓ} → Dict (List A) → List A
flat [] = []
flat ((base, group) ∷ bases) = group ++ flat bases

add_to-Perm {ℓ} :
    {A : Type ℓ} (base : String) (a : A) (bases : Dict (List A))
    → Perm (flat (add_to base a bases)) (a ∷ flat bases)
unfolding add_to
add_to-Perm base a [] = Perm.rfl
add_to-Perm base a ((other, group) ∷ bases) = elim (Bool-cases (str_eq other base)) [
  | inl e ↦ rw e (rw (append_assoc group (a ∷ []) (flat bases)) (perm_middle group (flat bases)))
  | inr e ↦ rw e (
      Perm.trans (Perm.append_left group (add_to-Perm base a bases))
        (perm_middle group (flat bases)))
]

abbrev pub albums_of : List AlbumEntry → List Fields
albums_of = map (λ (e : AlbumEntry). e.album)

albums_of-append : (es fs : List AlbumEntry) → albums_of (es ++ fs) ≡ albums_of es ++ albums_of fs
albums_of-append [] fs = refl
albums_of-append (e ∷ es) fs = ap (λ l. e.album ∷ l) (albums_of-append es fs)

module _ (p : Provider) where
  grouped-Perm :
      (albums : List Fields) (bases : Dict (List Fields))
      → Perm (flat (grouped p albums bases)) (albums ++ flat bases)
  unfolding grouped
  grouped-Perm [] bases = Perm.rfl
  grouped-Perm (album ∷ albums) bases =
      Perm.trans (grouped-Perm albums (add_to (album_base p album) album bases)) (
        Perm.trans (Perm.append_left albums (add_to-Perm (album_base p album) album bases))
          (perm_middle albums (flat bases)))

  suffixed_entries_albums :
      (base : String) (group : List Fields) → albums_of (suffixed_entries p base group) ≡ group
  unfolding suffixed_entries
  suffixed_entries_albums base [] = refl
  suffixed_entries_albums base (album ∷ group) =
      ap (λ l. album ∷ l) (suffixed_entries_albums base group)

  group_entries_albums :
      (base : String) (group : List Fields) → albums_of (group_entries p base group) ≡ group
  unfolding group_entries
  group_entries_albums base [] = suffixed_entries_albums base []
  group_entries_albums base (album ∷ []) = refl
  group_entries_albums base (album ∷ next ∷ group) =
      suffixed_entries_albums base (album ∷ next ∷ group)

  all_entries_albums : (bases : Dict (List Fields)) → albums_of (all_entries p bases) ≡ flat bases
  unfolding all_entries
  all_entries_albums [] = refl
  all_entries_albums ((base, group) ∷ bases) =
      rw (albums_of-append, group_entries_albums, all_entries_albums bases) refl

  insert_entry-Perm : (e : AlbumEntry) (es : List AlbumEntry) → Perm (insert_entry p e es) (e ∷ es)
  unfolding insert_entry
  insert_entry-Perm e [] = Perm.rfl
  insert_entry-Perm e (x ∷ xs) =
      elim (Bool-cases (is_le (compare (p.casefold e.name) (p.casefold x.name)))) [
        | inl first ↦ rw first Perm.rfl
        | inr later ↦
            rw later (Perm.trans (Perm.cons x (insert_entry-Perm e xs)) (Perm.swap e x xs))
      ]

  sorted_entries-Perm : (es : List AlbumEntry) → Perm (sorted_entries p es) es
  unfolding sorted_entries
  sorted_entries-Perm [] = Perm.rfl
  sorted_entries-Perm (e ∷ es) =
      Perm.trans (insert_entry-Perm e (sorted_entries p es)) (Perm.cons e (sorted_entries-Perm es))

  -- The entries of a list of albums are those albums in another order: whatever names collide, none
  -- is lost and none is listed twice.
  pub album_entries-Perm : (albums : List Fields) → Perm (albums_of (album_entries p albums)) albums
  unfolding album_entries
  album_entries-Perm albums =
      Perm.trans
        (Perm.map (λ (e : AlbumEntry). e.album)
          (sorted_entries-Perm (all_entries p (grouped p albums []))))
        (rw (all_entries_albums (grouped p albums []))
          (subst (Perm (flat (grouped p albums []))) (append_nil albums) (grouped-Perm albums [])))
