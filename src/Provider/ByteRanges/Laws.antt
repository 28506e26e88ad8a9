-- ===== src/Provider/ByteRanges/Laws.antt =====
-- src/immich_bridge/webdav_provider.py: the ranges that a `Range` header is read as.
use immich_bridge.Prelude.{
  ℕ, ◌≤◌, ◌≡◌, ◌⊎◌, inl, inr, none, some, List, [], ◌∷◌, arith, Option-cases, drop,
}
use immich_bridge.Json.{Value, str, pos, negsuc}
use immich_bridge.Text.{codes, strip, split_once, parse_int}
use immich_bridge.Provider.ByteRanges.{
  ByteRange, first_range, end_after, range_of_texts, range_of_spec, byte_range_from_header,
}

-- A range that is open or ends no earlier than it starts.
abbrev pub IsForward : ByteRange → Type 0
IsForward r = (r.end ≡ none) ⊎ ((e : ℕ) × (r.end ≡ some e) × (r.start ≤ e))

end_after-IsForward :
    (start : ℕ) (text : List ℕ) (r : ByteRange) → end_after start text ≡ some r → IsForward r
unfolding end_after
end_after-IsForward start [] r h = inl (ground arith)
end_after-IsForward start (c ∷ cs) r h = elim (Option-cases (parse_int (c ∷ cs))) [
  | inl e ↦ absurd (ground arith)
  | inr (pos n, e) ↦ inr (n, ground arith, ground arith)
  | inr (negsuc n, e) ↦ absurd (ground arith)
]

range_of_texts-IsForward :
    (s e : List ℕ) (r : ByteRange) → range_of_texts s e ≡ some r → IsForward r
unfolding range_of_texts
range_of_texts-IsForward [] e r h = absurd (ground arith)
range_of_texts-IsForward (c ∷ cs) e r h = elim (Option-cases (parse_int (c ∷ cs))) [
  | inl q ↦ absurd (ground arith)
  | inr (pos n, q) ↦ end_after-IsForward n e r (ground arith)
  | inr (negsuc n, q) ↦ absurd (ground arith)
]

range_of_spec-IsForward :
    (spec : List ℕ) (r : ByteRange) → range_of_spec spec ≡ some r → IsForward r
unfolding range_of_spec
range_of_spec-IsForward spec r h = elim (Option-cases (split_once b'-' spec)) [
  | inl e ↦ absurd (ground arith)
  | inr (parts, e) ↦ range_of_texts-IsForward (strip parts.0) (strip parts.1) r (ground arith)
]

-- A `Range` header is read as a range only if it is a text, and the range then is open or ends no
-- earlier than it starts.
pub byte_range-IsForward :
    (header : Value) (r : ByteRange) → byte_range_from_header header ≡ some r → IsForward r
unfolding byte_range_from_header
byte_range-IsForward (str text) r h =
    ground (arith, range_of_spec-IsForward (strip (first_range (drop 6 (codes text)))) r)
byte_range-IsForward _ r h = absurd (ground arith)
