-- ===== src/Dict.antt =====
-- Python's `dict` with string keys, in insertion order: `d[k] = v` on a present key keeps its place.
pub mod Laws
use immich_bridge.Prelude.{
  String, Bool, not, Option, none, some, List, [], ◌∷◌, str_eq, if◌then◌else◌,
}

abbrev pub Dict {ℓ} : Type ℓ → Type ℓ
Dict V = List (String × V)

module _ {ℓ} {V : Type ℓ} where
  -- `d.get(k)`
  unfoldable pub lookup : String → Dict V → Option V
  lookup k [] = none
  lookup k ((j, v) ∷ d) = let rest = lookup k d in if str_eq j k then some v else rest

  -- `d[k] = v`
  unfoldable pub insert : String → V → Dict V → Dict V
  insert k v [] = (k, v) ∷ []
  insert k v ((j, w) ∷ d) =
      let rest = insert k v d in if str_eq j k then (j, v) ∷ d else (j, w) ∷ rest

  -- the items whose key passes a test
  unfoldable pub keep_keys : (String → Bool) → Dict V → Dict V
  keep_keys p [] = []
  keep_keys p ((j, v) ∷ d) = let rest = keep_keys p d in if p j then (j, v) ∷ rest else rest

  -- `del d[k]`
  unfoldable pub delete : String → Dict V → Dict V
  unfolding keep_keys
  delete k d = keep_keys (λ j. not (str_eq j k)) d
