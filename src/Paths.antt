-- ===== src/Paths.antt =====
-- DAV paths: the splitting and joining that src/immich_bridge/webdav_provider.py repeats for every
-- resource, `[p for p in path.rstrip("/").split("/") if p]` and `f"{path.rstrip('/')}/{name}"`.
use immich_bridge.Prelude.{
  String, Bool, not, ◌&&◌, List, [], ◌∷◌, ◌==◌, keep, str_eq, if◌then◌else◌, concat,
}
use Prim.Native.Char.{Char, code}

abbrev is_slash : Char → Bool
is_slash c = code c == b'/'

-- `path.rstrip("/")`
unfoldable pub rstrip_slash : String → String
rstrip_slash String.[] = ""
rstrip_slash (String.◌∷◌ c s) =
    let rest = rstrip_slash s in if is_slash c && str_eq rest "" then "" else String.◌∷◌ c rest

abbrev cons_first : Char → List String → List String
cons_first c [] = String.◌∷◌ c "" ∷ []
cons_first c (t ∷ ts) = String.◌∷◌ c t ∷ ts

-- `path.split("/")`
unfoldable pub split_slash : String → List String
split_slash String.[] = "" ∷ []
split_slash (String.◌∷◌ c s) =
    let rest = split_slash s in if is_slash c then "" ∷ rest else cons_first c rest

-- `path.rstrip("/") or "/"`
unfoldable pub normalize : String → String
unfolding rstrip_slash
normalize path = if str_eq (rstrip_slash path) "" then "/" else rstrip_slash path

-- The parts of a path that are not empty.
unfoldable pub path_parts : String → List String
unfolding split_slash
path_parts path = keep (λ p. not (str_eq p "")) (split_slash path)

unfoldable pub child_path : String → String → String
unfolding rstrip_slash
child_path base name = concat (rstrip_slash base) (concat "/" name)
