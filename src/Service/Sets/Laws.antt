-- ===== src/Service/Sets/Laws.antt =====
-- src/immich_bridge/fs_service.py: the values of `sorted(set(xs))`.
use immich_bridge.Prelude.{
  ◌≡◌, ◌⊎◌, ◌↔◌, ◌∙◌, inl, inr, Bool, true, false, List, [], ◌∷◌, arith, Bool-cases,
}
use immich_bridge.FsModel.{Date}
use immich_bridge.Service.Sets.{date_before, insert_once, sorted_set}

-- The value occurs in the list.
abbrev pub In : {A : Type 0} → A → List A → Type 0
In a [] = ⊥
In a (x ∷ xs) = (a ≡ x) ⊎ In a xs

-- Each value comes before the next.
abbrev pub IsChain : {A : Type 0} → (A → A → Bool) → List A → Type 0
IsChain before [] = Unit
IsChain before (x ∷ []) = Unit
IsChain before (x ∷ y ∷ ys) = (before x y ≡ true) × IsChain before (y ∷ ys)

right_map : {P Q R : Type 0} → (Q → R) → P ⊎ Q → P ⊎ R
right_map f (inl p) = inl p
right_map f (inr q) = inr (f q)

swap_first : {P Q R S : Type 0} → P ↔ (Q ⊎ R) → (S ⊎ P) ↔ (Q ⊎ (S ⊎ R))
swap_first {P} {Q} {R} {S} e = (there, back)
  where
    under : Q ⊎ R → Q ⊎ (S ⊎ R)
    under (inl q) = inl q
    under (inr r) = inr (inr r)

    there : S ⊎ P → Q ⊎ (S ⊎ R)
    there (inl s) = inr (inl s)
    there (inr p) = under (e.0 p)

    back : Q ⊎ (S ⊎ R) → S ⊎ P
    back (inl q) = inr (e.1 (inl q))
    back (inr (inl s)) = inl s
    back (inr (inr r)) = inr (e.1 (inr r))

merge_first : {A : Type 0} {R : Type 0} {t x y : A} → x ≡ y → (t ≡ x) ⊎ ((t ≡ y) ⊎ R) → (t ≡ y) ⊎ R
merge_first e (inl p) = inl (p ∙ e)
merge_first e (inr h) = h

module _ {A : Type 0} (before : A → A → Bool) where
  insert_after :
      (w x : A) (ys : List A)
      → before w x ≡ true
      → IsChain before (w ∷ ys)
      → IsChain before (insert_once before x ys)
      → IsChain before (w ∷ insert_once before x ys)
  unfolding insert_once
  insert_after w x [] h c d = (h, tt)
  insert_after w x (y ∷ ys) h c d = elim (Bool-cases (before x y)) [
    | inl first ↦ rw first (h, rw first at d)
    | inr later ↦ elim (Bool-cases (before y x)) [
      | inl after ↦ rw (later, after) (c.0, rw (later, after) at d)
      | inr same ↦ rw (later, same) (c.0, rw (later, same) at d)
    ]
  ]

  IsChain-tail : (x : A) (xs : List A) → IsChain before (x ∷ xs) → IsChain before xs
  IsChain-tail x [] c = tt
  IsChain-tail x (y ∷ ys) c = c.1

  insert_once-IsChain :
      (x : A) (ys : List A) → IsChain before ys → IsChain before (insert_once before x ys)
  unfolding insert_once
  insert_once-IsChain x [] c = tt
  insert_once-IsChain x (y ∷ ys) c = elim (Bool-cases (before x y)) [
    | inl first ↦ rw first (first, c)
    | inr later ↦ elim (Bool-cases (before y x)) [
      | inl after ↦
          rw (later, after)
            (insert_after y x ys after c (insert_once-IsChain x ys (IsChain-tail y ys c)))
      | inr same ↦ rw (later, same) c
    ]
  ]

  pub sorted_set-IsChain : (xs : List A) → IsChain before (sorted_set before xs)
  unfolding sorted_set
  sorted_set-IsChain [] = tt
  sorted_set-IsChain (x ∷ xs) = insert_once-IsChain x (sorted_set before xs) (sorted_set-IsChain xs)

  module _ (same : (a b : A) → before a b ≡ false → before b a ≡ false → a ≡ b) where
    In-insert_once : (t x : A) (ys : List A) → In t (insert_once before x ys) ↔ ((t ≡ x) ⊎ In t ys)
    unfolding insert_once
    In-insert_once t x [] = (λ h. h, λ h. h)
    In-insert_once t x (y ∷ ys) = elim (Bool-cases (before x y)) [
      | inl first ↦ rw first (λ h. h, λ h. h)
      | inr later ↦ elim (Bool-cases (before y x)) [
        | inl after ↦ rw (later, after) (swap_first (In-insert_once t x ys))
        | inr equal ↦ rw (later, equal) (inr, merge_first (same x y later equal))
      ]
    ]

    pub In-sorted_set : (t : A) (xs : List A) → In t (sorted_set before xs) ↔ In t xs
    unfolding sorted_set
    In-sorted_set t [] = (λ h. h, λ h. h)
    In-sorted_set t (x ∷ xs) =
        let (from, into) = In-insert_once t x (sorted_set before xs) in
        let rest = In-sorted_set t xs in
        (λ h. right_map rest.0 (from h), λ h. into (right_map rest.1 h))

pub date_before_same : (a b : Date) → date_before a b ≡ false → date_before b a ≡ false → a ≡ b
unfolding date_before
date_before_same a b h k = ground arith
