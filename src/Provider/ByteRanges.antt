-- ===== src/Provider/ByteRanges.antt =====
-- src/immich_bridge/webdav_provider.py: `ByteRange` and the parsing of the `Range` header.
pub mod Laws
pub mod Headers
use immich_bridge.Prelude.{ℕ, Option, none, some, List, [], ◌∷◌, drop, ltb, if◌then◌else◌}
use immich_bridge.Json.{pos, negsuc, Value, str}
use immich_bridge.Text.{codes, startswith, strip, split_once, parse_int}
use mathlib.Core.Option

pub record ByteRange : Type 0 where
  pub start : ℕ
  pub end : Option ℕ

abbrev pub bytes_prefix : List ℕ
bytes_prefix = codes "bytes="

-- `text.split(",", 1)[0]`
unfoldable pub first_range : List ℕ → List ℕ
first_range text = elim (split_once b',' text) [ none ↦ text | some parts ↦ parts.0 ]

-- The end, parsed and compared with the start.
unfoldable pub end_after : ℕ → List ℕ → Option ByteRange
end_after start [] = some (record { start = start; end = none })
end_after start (c ∷ cs) = elim (parse_int (c ∷ cs)) [
  | none ↦ none
  | some (pos end) ↦ if ltb end start then none else some (record { start = start; end = some end })
  | some (negsuc n) ↦ none
]

-- The two numbers, by their texts. The end is parsed before the start is tested, with no effect on
-- the result.
unfoldable pub range_of_texts : List ℕ → List ℕ → Option ByteRange
unfolding end_after
range_of_texts [] end_text = none
range_of_texts (c ∷ cs) end_text = elim (parse_int (c ∷ cs)) [
  | none ↦ none
  | some (pos start) ↦ end_after start end_text
  | some (negsuc n) ↦ none
]

unfoldable pub range_of_spec : List ℕ → Option ByteRange
unfolding range_of_texts
range_of_spec spec = if startswith spec (b'-' ∷ []) then none else elim (split_once b'-' spec) [
  | none ↦ none
  | some parts ↦ range_of_texts (strip parts.0) (strip parts.1)
]

unfoldable pub byte_range_from_header : Value → Option ByteRange
unfolding first_range range_of_spec
byte_range_from_header (str header) =
    if startswith (codes header) bytes_prefix
    then range_of_spec (strip (first_range (drop 6 (codes header))))
    else none
byte_range_from_header _ = none

pub range_start_from_header : Value → Option ℕ
unfolding byte_range_from_header
range_start_from_header header =
    Option.map (λ (r : ByteRange). r.start) (byte_range_from_header header)
