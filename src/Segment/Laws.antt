-- ===== src/Segment/Laws.antt =====
-- src/immich_bridge/fs_model.py, `safe_segment`: the text that it makes.
use immich_bridge.Prelude.{
  ℕ, zero, suc, ◌≤◌, ◌≡◌, refl, Bool, false, List, [], ◌∷◌, take, any, length, arith, if◌then◌else◌,
  Bool-cases, inl, inr,
}
use Prim.Native.Char.{Char}
use mathlib.Core.List.{reverse, reverse_aux}
use immich_bridge.Segment.{
  is_unsafe, is_blank, replace_unsafe, collapse, lstrip_edges, strip_edges, or_else, safe_chars,
}

-- No character is unsafe.
abbrev pub IsSafe : List Char → Type 0
IsSafe cs = any is_unsafe cs ≡ false

dash_is_safe : is_unsafe "-" ≡ false
unfolding is_unsafe
dash_is_safe = refl

blank_is_safe : is_unsafe " " ≡ false
unfolding is_unsafe
blank_is_safe = refl

replaced : (c : Char) → is_unsafe (if is_unsafe c then "-" else c) ≡ false
replaced c = elim (Bool-cases (is_unsafe c)) [ inl e ↦ rw e dash_is_safe | inr e ↦ rw (e, e) refl ]

replace_unsafe-IsSafe : (cs : List Char) → IsSafe (replace_unsafe cs)
unfolding replace_unsafe
replace_unsafe-IsSafe [] = refl
replace_unsafe-IsSafe (c ∷ cs) = rw (replaced c, replace_unsafe-IsSafe cs) refl

collapse-IsSafe : (skipping : Bool) (cs : List Char) → IsSafe cs → IsSafe (collapse skipping cs)
unfolding collapse
collapse-IsSafe skipping [] h = refl
collapse-IsSafe skipping (c ∷ cs) h = ground (arith, collapse-IsSafe (is_blank c) cs, blank_is_safe)

lstrip_edges-IsSafe : (cs : List Char) → IsSafe cs → IsSafe (lstrip_edges cs)
unfolding lstrip_edges
lstrip_edges-IsSafe [] h = refl
lstrip_edges-IsSafe (c ∷ cs) h = ground (arith, lstrip_edges-IsSafe cs)

take-IsSafe : (n : ℕ) (cs : List Char) → IsSafe cs → IsSafe (take n cs)
take-IsSafe zero cs h = refl
take-IsSafe (suc n) [] h = refl
take-IsSafe (suc n) (c ∷ cs) h = ground (arith, take-IsSafe n cs)

reverse_aux-IsSafe : (cs ds : List Char) → IsSafe cs → IsSafe ds → IsSafe (reverse_aux cs ds)
reverse_aux-IsSafe [] ds h g = g
reverse_aux-IsSafe (c ∷ cs) ds h g = reverse_aux-IsSafe cs (c ∷ ds) (ground arith) (ground arith)

reverse-IsSafe : (cs : List Char) → IsSafe cs → IsSafe (reverse cs)
reverse-IsSafe cs h = reverse_aux-IsSafe cs [] h refl

strip_edges-IsSafe : (cs : List Char) → IsSafe cs → IsSafe (strip_edges cs)
unfolding strip_edges
strip_edges-IsSafe cs h =
    reverse-IsSafe _ (lstrip_edges-IsSafe _ (reverse-IsSafe _ (lstrip_edges-IsSafe cs h)))

or_else-IsSafe : (cs ds : List Char) → IsSafe cs → IsSafe ds → IsSafe (or_else cs ds)
or_else-IsSafe [] ds h g = g
or_else-IsSafe (c ∷ cs) ds h g = h

or_else-nonempty : (cs ds : List Char) → 1 ≤ length ds → 1 ≤ length (or_else cs ds)
or_else-nonempty [] ds g = g
or_else-nonempty (c ∷ cs) ds g = omega arith

-- With a fallback that is safe and not empty, whatever text a segment is made of, the segment
-- has no character that is unsafe, a slash in particular, and it is not empty.
pub safe_chars-IsSafe :
    (text fallback : List Char) (max_length : ℕ)
    → IsSafe fallback
    → 1 ≤ length fallback
    → IsSafe (safe_chars text fallback max_length)
      × (1 ≤ length (safe_chars text fallback max_length))
unfolding safe_chars
safe_chars-IsSafe text fallback max_length safe nonempty = (
  or_else-IsSafe _ fallback
      (strip_edges-IsSafe _ (
        take-IsSafe max_length _ (
          or_else-IsSafe _ fallback
            (strip_edges-IsSafe _ (collapse-IsSafe false _ (replace_unsafe-IsSafe text))) safe)))
      safe,
  or_else-nonempty _ fallback nonempty,
)
