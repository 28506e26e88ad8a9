-- ===== src/Base64.antt =====
-- `_b64` and `_unb64` of src/immich_bridge/authz.py, with the parts of Python's `base64` that they
-- run: the URL-safe alphabet, and the decoder of `binascii.a2b_base64` in its lenient mode, which
-- skips what is outside the alphabet. Text is its list of code points.

pub mod RoundTrip
use immich_bridge.Prelude.{
  ℕ, ◌+◌, ◌-◌, ◌*◌, ◌/◌, ◌%◌, Bool, true, false, ◌&&◌, ◌||◌, not, Option, none, some, List, [], ◌∷◌,
  ◌++◌, any, length, ltb, leb, ◌==◌, if◌then◌else◌,
}
use mathlib.Core.Option

-- The character for a six-bit number.
pub symbol : ℕ → ℕ
symbol v =
    if ltb v 26
    then v + 65
    else if ltb v 52
    then v + 71
    else if ltb v 62
    then v - 4
    else if v == 62
    then b'-'
    else b'_'

-- The six-bit number of a character; `-` and `_` are translated to `+` and `/` first.
pub symbol_value : ℕ → Option ℕ
symbol_value c =
    if leb b'A' c && leb c b'Z'
    then some (c - 65)
    else if leb b'a' c && leb c b'z'
    then some (c - 71)
    else if leb b'0' c && leb c b'9'
    then some (c + 4)
    else if (c == b'+') || (c == b'-')
    then some 62
    else if (c == b'/') || (c == b'_')
    then some 63
    else none

-- `base64.urlsafe_b64encode`
pub urlsafe_b64encode : List ℕ → List ℕ
urlsafe_b64encode [] = []
urlsafe_b64encode (a ∷ []) = symbol (a / 4) ∷ symbol (a % 4 * 16) ∷ b'=' ∷ b'=' ∷ []
urlsafe_b64encode (a ∷ b ∷ []) =
    symbol (a / 4) ∷ symbol (a % 4 * 16 + b / 16) ∷ symbol (b % 16 * 4) ∷ b'=' ∷ []
urlsafe_b64encode (a ∷ b ∷ c ∷ rest) =
    symbol (a / 4)
    ∷ symbol (a % 4 * 16 + b / 16)
    ∷ symbol (b % 16 * 4 + c / 64)
    ∷ symbol (c % 64)
    ∷ urlsafe_b64encode rest

-- `text.rstrip(ch)`
pub rstrip : ℕ → List ℕ → List ℕ
rstrip ch [] = []
rstrip ch (x ∷ xs) = elim (rstrip ch xs) [
  | [] ↦ if x == ch then [] else x ∷ []
  | y ∷ ys ↦ x ∷ y ∷ ys
]

pub b64 : List ℕ → List ℕ
unfolding urlsafe_b64encode rstrip
b64 value = rstrip b'=' (urlsafe_b64encode value)

-- The decoder's place in a group of four, with the bits left over from the last character.
pub data Quad : Type 0 where
  first : Quad
  second third fourth : ℕ → Quad

-- At `=` the decoder stops once two characters are in and the padding fills the group.
pub fills_group : Quad → ℕ → Bool
fills_group first pads = false
fills_group (second left) pads = false
fills_group (third left) pads = leb 4 (2 + pads)
fills_group (fourth left) pads = leb 4 (3 + pads)

pub counted_pads : Quad → ℕ → ℕ
counted_pads (third left) pads = pads + 1
counted_pads (fourth left) pads = pads + 1
counted_pads _ pads = pads

pub a2b_base64 : Quad → ℕ → List ℕ → Option (List ℕ)
unfolding fills_group counted_pads
a2b_base64 first pads [] = some []
a2b_base64 (second left) pads [] = none
a2b_base64 (third left) pads [] = none
a2b_base64 (fourth left) pads [] = none
a2b_base64 q pads (ch ∷ rest) =
    if ch == b'='
    then (let more = a2b_base64 q (counted_pads q pads) rest in
        if fills_group q (counted_pads q pads) then some [] else more)
    else elim (symbol_value ch) [
      | none ↦ a2b_base64 q pads rest
      | some v ↦ elim q [
        | first ↦ a2b_base64 (second v) 0 rest
        | second left ↦ Option.map (◌∷◌ (left * 4 + v / 16)) (a2b_base64 (third (v % 16)) 0 rest)
        | third left ↦ Option.map (◌∷◌ (left * 16 + v / 4)) (a2b_base64 (fourth (v % 4)) 0 rest)
        | fourth left ↦ Option.map (◌∷◌ (left * 64 + v)) (a2b_base64 first 0 rest)
      ]
    ]

-- `"=" * (-len(value) % 4)`
pub padding : ℕ → List ℕ
padding n =
    let r = n % 4 in
    if r == 0
    then []
    else if r == 1
    then b'=' ∷ b'=' ∷ b'=' ∷ []
    else if r == 2
    then b'=' ∷ b'=' ∷ []
    else b'=' ∷ []

-- `none` is the `ValueError` of a text that is not ASCII, or not a whole number of bytes.
pub unb64 : List ℕ → Option (List ℕ)
unfolding padding a2b_base64
unb64 value =
    if any (λ c. not (ltb c 128)) value
    then none
    else a2b_base64 first 0 (value ++ padding (length value))
