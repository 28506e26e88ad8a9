-- ===== src/Text.antt =====
-- Python's text functions that the sources run on path segments and headers, over code points.
-- Digits and white space are those of ASCII.
pub mod Digits
pub mod Decimals
use immich_bridge.Prelude.{
  ℕ, zero, suc, ◌+◌, ◌-◌, ◌*◌, String, Bool, true, false, ◌&&◌, ◌||◌, Option, none, some, List, [],
  ◌∷◌, ltb, leb, ◌==◌, if◌then◌else◌,
}
use immich_bridge.Json.{ℤ, pos, negsuc}
use Prim.Native.Char.{code}
use mathlib.Core.List.{reverse}
use mathlib.Core.Option

-- The code points of a text.
abbrev pub codes : String → List ℕ
codes String.[] = []
codes (String.◌∷◌ first rest) = code first ∷ codes rest

abbrev pub is_digit : ℕ → Bool
is_digit c = leb b'0' c && leb c b'9'

-- `str.isspace` on ASCII
abbrev pub is_space : ℕ → Bool
is_space c = (leb 9 c && leb c 13) || (leb 28 c && leb c 32)

-- `text.isdigit()`: not empty, digits only
abbrev pub all_digits : List ℕ → Bool
all_digits [] = true
all_digits (c ∷ cs) = is_digit c && all_digits cs

abbrev pub isdigit : List ℕ → Bool
isdigit [] = false
isdigit (c ∷ cs) = is_digit c && all_digits cs

-- `text.startswith(prefix)`
abbrev pub startswith : List ℕ → List ℕ → Bool
startswith text [] = true
startswith [] (p ∷ ps) = false
startswith (c ∷ cs) (p ∷ ps) = (c == p) && startswith cs ps

abbrev pub lstrip : List ℕ → List ℕ
lstrip [] = []
lstrip (c ∷ cs) = let rest = lstrip cs in if is_space c then rest else c ∷ cs

-- `text.strip()`
unfoldable pub strip : List ℕ → List ℕ
strip text = reverse (lstrip (reverse (lstrip text)))

-- `text.split(sep, 1)` where the separator occurs: the texts before and after it
unfoldable pub split_once : ℕ → List ℕ → Option (List ℕ × List ℕ)
split_once sep [] = none
split_once sep (c ∷ cs) =
    let rest = Option.map (λ (p : List ℕ × List ℕ). (c ∷ p.0, p.1)) (split_once sep cs) in
    if c == sep then some ([], cs) else rest

abbrev cons_first : ℕ → List (List ℕ) → List (List ℕ)
cons_first c [] = (c ∷ []) ∷ []
cons_first c (t ∷ ts) = (c ∷ t) ∷ ts

-- `text.split(sep)`
unfoldable pub split : ℕ → List ℕ → List (List ℕ)
split sep [] = [] ∷ []
split sep (c ∷ cs) = let rest = split sep cs in if c == sep then [] ∷ rest else cons_first c rest

-- The digits of `int(text)`, an underscore allowed between two digits. The flag says whether the
-- character before was a digit.
unfoldable pub digits_value : Bool → ℕ → List ℕ → Option ℕ
digits_value after_digit n [] = if after_digit then some n else none
digits_value after_digit n (c ∷ cs) =
    let next = digits_value true (n * 10 + (c - b'0')) cs in
    let skip = digits_value false n cs in
    if is_digit c then next else if after_digit && (c == b'_') then skip else none

-- the integer -n
abbrev negated : ℕ → ℤ
negated zero = pos 0
negated (suc n) = negsuc n

unfoldable pub signed_value : List ℕ → Option ℤ
unfolding digits_value
signed_value [] = none
signed_value (c ∷ cs) =
    if c == b'-'
    then Option.map negated (digits_value false 0 cs)
    else if c == b'+'
    then Option.map pos (digits_value false 0 cs)
    else Option.map pos (digits_value false 0 (c ∷ cs))

-- `int(text)`; `none` is the `ValueError`
unfoldable pub parse_int : List ℕ → Option ℤ
unfolding strip signed_value
parse_int text = signed_value (strip text)
