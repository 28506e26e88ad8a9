-- ===== src/Provider/Names.antt =====
-- src/immich_bridge/webdav_provider.py: the names that are answered without a collection, the READMEs
-- and the files of macOS metadata.
use immich_bridge.Prelude.{
  String, Bool, true, false, ◌&&◌, ◌||◌, List, [], ◌∷◌, elem, if◌then◌else◌, str_eq,
}
use text.Mathlib.Text.{starts_with}
use immich_bridge.Provider.{
  Readme, about_root, about_albums, about_timeline, about_views, about_favorites,
}

abbrev pub readme_filename : String
readme_filename = "README.txt"

-- `is_macos_metadata_file`
unfoldable pub is_macos_metadata_file : String → Bool
is_macos_metadata_file name =
    starts_with name "._"
    || elem name (".DS_Store" ∷ "._.DS_Store" ∷ ".Spotlight-V100" ∷ ".Trashes" ∷ ".fseventsd" ∷ [])

-- `_is_virtual_readme_path`
unfoldable pub is_virtual_readme_path : List String → Bool
is_virtual_readme_path (name ∷ []) = str_eq name readme_filename
is_virtual_readme_path (first ∷ name ∷ []) =
    str_eq name readme_filename && elem first ("Albums" ∷ "Timeline" ∷ "Favorites" ∷ "Views" ∷ [])
is_virtual_readme_path _ = false

abbrev pub is_nil {ℓ} : {A : Type ℓ} → List A → Bool
is_nil [] = true
is_nil (x ∷ xs) = false

abbrev pub is_only : String → List String → Bool
is_only name (t ∷ []) = str_eq t name
is_only name _ = false

-- Is the last part, one below the first, a file of macOS metadata?
unfoldable pub is_macos_below : List String → Bool
unfolding is_macos_metadata_file
is_macos_below [] = false
is_macos_below (name ∷ []) = is_macos_metadata_file name
is_macos_below (name ∷ next ∷ rest) = is_macos_below (next ∷ rest)

-- `_readme_content`, of a path that is a README's
unfoldable pub readme_content : List String → Readme
readme_content [] = about_favorites
readme_content (first ∷ rest) =
    if is_virtual_readme_path (first ∷ []) && is_nil rest
    then about_root
    else if str_eq first "Albums"
    then about_albums
    else if str_eq first "Timeline"
    then about_timeline
    else if str_eq first "Views"
    then about_views
    else about_favorites
