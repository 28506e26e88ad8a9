-- ===== src/Albums.antt =====
-- src/immich_bridge/fs_model.py, `album_entries`: the folder names of albums.
pub mod Complete
pub mod Tests
use immich_bridge.Prelude.{
  ℕ, String, Bool, Option, List, [], ◌∷◌, ◌++◌, ◌==◌, take, if◌then◌else◌, str_eq, concat, keep,
  not,
}
use immich_bridge.Json.{Value, Fields, get}
use immich_bridge.Dict.{Dict}
use immich_bridge.Segment.{chars, of_chars, safe_segment}
use immich_bridge.Provider.{AlbumEntry, Provider}
use immich_bridge.Provider.Views.{text_or}
use Prim.Native.Char.{Char, code}
use Prim.Native.String.{compare}
use text.Mathlib.Text.{is_le}

-- `bases.setdefault(base, []).append(album)`
unfoldable pub add_to {ℓ} : {A : Type ℓ} → String → A → Dict (List A) → Dict (List A)
add_to base album [] = (base, album ∷ []) ∷ []
add_to base album ((other, group) ∷ bases) =
    let rest = add_to base album bases in
    if str_eq other base then (other, group ++ album ∷ []) ∷ bases else (other, group) ∷ rest

abbrev is_dash : Char → Bool
is_dash c = code c == b'-'

abbrev without_dashes : List Char → List Char
without_dashes = keep (λ c. not (is_dash c))

module _ (p : Provider) where
  -- `short_id`
  unfoldable pub short_id : Value → ℕ → String
  short_id value length =
      let text = of_chars (take length (without_dashes (chars (text_or p value "")))) in
      if str_eq text "" then "unknown" else text

  unfoldable pub album_base : Fields → String
  album_base album = safe_segment (text_or p (get album "albumName") "Album") "Album" 140

  unfoldable pub grouped : List Fields → Dict (List Fields) → Dict (List Fields)
  unfolding add_to album_base
  grouped [] bases = bases
  grouped (album ∷ albums) bases = grouped albums (add_to (album_base album) album bases)

  -- The name of an album that shares its base name.
  unfoldable pub suffixed_name : String → Fields → String
  unfolding short_id
  suffixed_name base album = concat base (concat "--" (short_id (get album "id") 8))

  unfoldable pub suffixed_entries : String → List Fields → List AlbumEntry
  unfolding suffixed_name
  suffixed_entries base [] = []
  suffixed_entries base (album ∷ group) =
      record { name = suffixed_name base album; album = album } ∷ suffixed_entries base group

  unfoldable pub group_entries : String → List Fields → List AlbumEntry
  unfolding suffixed_entries
  group_entries base (album ∷ []) = record { name = base; album = album } ∷ []
  group_entries base group = suffixed_entries base group

  unfoldable pub all_entries : Dict (List Fields) → List AlbumEntry
  unfolding group_entries
  all_entries [] = []
  all_entries ((base, group) ∷ bases) = group_entries base group ++ all_entries bases

  -- `sorted(entries, key=lambda entry: entry.name.casefold())`, which is stable
  unfoldable pub insert_entry : AlbumEntry → List AlbumEntry → List AlbumEntry
  insert_entry e [] = e ∷ []
  insert_entry e (x ∷ xs) =
      let rest = insert_entry e xs in
      if is_le (compare (p.casefold e.name) (p.casefold x.name)) then e ∷ x ∷ xs else x ∷ rest

  unfoldable pub sorted_entries : List AlbumEntry → List AlbumEntry
  unfolding insert_entry
  sorted_entries [] = []
  sorted_entries (e ∷ es) = insert_entry e (sorted_entries es)

  unfoldable pub album_entries : List Fields → List AlbumEntry
  unfolding grouped all_entries sorted_entries
  album_entries albums = sorted_entries (all_entries (grouped albums []))
