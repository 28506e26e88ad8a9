-- ===== src/Dict/Laws.antt =====
-- Lookup after each operation of a dictionary.
use immich_bridge.Prelude.{
  String, ◌≡◌, refl, Bool, not, none, some, [], ◌∷◌, arith, str_eq, eq_iff, str_eq_refl,
  if◌then◌else◌,
}
use immich_bridge.Dict.{Dict, lookup, insert, keep_keys, delete}

module _ {ℓ} {V : Type ℓ} where
  pub lookup-insert :
      (k j : String) (v : V) (d : Dict V)
      → lookup j (insert k v d) ≡ (if str_eq k j then some v else lookup j d)
  unfolding lookup insert
  lookup-insert k j v [] = refl
  lookup-insert k j v ((i, w) ∷ d) =
      ground (arith, eq_iff k j, eq_iff i k, eq_iff i j, lookup-insert k j v d)

  pub lookup-keep_keys :
      (p : String → Bool) (j : String) (d : Dict V)
      → lookup j (keep_keys p d) ≡ (if p j then lookup j d else none)
  unfolding lookup keep_keys
  lookup-keep_keys p j [] = ground arith
  lookup-keep_keys p j ((i, w) ∷ d) = ground (arith, eq_iff i j, lookup-keep_keys p j d)

  pub lookup-delete :
      (k j : String) (d : Dict V)
      → lookup j (delete k d) ≡ (if str_eq j k then none else lookup j d)
  unfolding delete
  lookup-delete k j d = ground (arith, lookup-keep_keys (λ i. not (str_eq i k)) j d)

  pub delete-insert : (k : String) (v : V) (d : Dict V) → delete k (insert k v d) ≡ delete k d
  unfolding delete insert keep_keys
  delete-insert k v [] = rw (str_eq_refl k) refl
  delete-insert k v ((i, w) ∷ d) = ground (arith, eq_iff i k, delete-insert k v d)

pub ruleset dict_laws = (lookup-insert, lookup-delete, lookup-keep_keys)
