-- ===== src/Base64/RoundTrip.antt =====
-- src/immich_bridge/authz.py: `_unb64` after `_b64`.
use immich_bridge.Prelude.{
  ℕ, suc, ◌+◌, ◌*◌, ◌/◌, ◌%◌, ◌<◌, ◌≡◌, refl, false, not, some, List, [], ◌∷◌, ◌++◌, arith, any,
  length, ltb, ◌==◌,
}
use mathlib.Core.Option
use immich_bridge.Base64.{
  symbol, symbol_value, rstrip, b64, first, second, third, fourth, a2b_base64, padding, unb64,
}

abbrev pub AllBytes : List ℕ → Type 0
AllBytes [] = Unit
AllBytes (b ∷ bs) = (b < 256) × AllBytes bs

symbol_value-symbol : (v : ℕ) → v < 64 → symbol_value (symbol v) ≡ some v
unfolding symbol symbol_value
symbol_value-symbol v h = ground arith

symbol-ne-pad : (v : ℕ) → v < 64 → (symbol v == b'=') ≡ false
unfolding symbol
symbol-ne-pad v h = ground arith

symbol-lt : (v : ℕ) → v < 64 → not (ltb (symbol v) 128) ≡ false
unfolding symbol
symbol-lt v h = ground arith

-- The decoder at a symbol, in each place of a group.
module _ (v : ℕ) (h : v < 64) (pads : ℕ) (rest : List ℕ) where
  decode_first : a2b_base64 first pads (symbol v ∷ rest) ≡ a2b_base64 (second v) 0 rest
  unfolding a2b_base64
  decode_first = rw (symbol-ne-pad v h, symbol_value-symbol v h, a2b_base64)

  decode_second :
      (left : ℕ)
      → a2b_base64 (second left) pads (symbol v ∷ rest)
        ≡ Option.map (◌∷◌ (left * 4 + v / 16)) (a2b_base64 (third (v % 16)) 0 rest)
  unfolding a2b_base64
  decode_second left = rw (symbol-ne-pad v h, symbol_value-symbol v h, a2b_base64)

  decode_third :
      (left : ℕ)
      → a2b_base64 (third left) pads (symbol v ∷ rest)
        ≡ Option.map (◌∷◌ (left * 16 + v / 4)) (a2b_base64 (fourth (v % 4)) 0 rest)
  unfolding a2b_base64
  decode_third left = rw (symbol-ne-pad v h, symbol_value-symbol v h, a2b_base64)

  decode_fourth :
      (left : ℕ)
      → a2b_base64 (fourth left) pads (symbol v ∷ rest)
        ≡ Option.map (◌∷◌ (left * 64 + v)) (a2b_base64 first 0 rest)
  unfolding a2b_base64
  decode_fourth left = rw (symbol-ne-pad v h, symbol_value-symbol v h, a2b_base64)

-- What `_b64` leaves: the encoding with no padding.
unpadded : List ℕ → List ℕ
unpadded [] = []
unpadded (a ∷ []) = symbol (a / 4) ∷ symbol (a % 4 * 16) ∷ []
unpadded (a ∷ b ∷ []) = symbol (a / 4) ∷ symbol (a % 4 * 16 + b / 16) ∷ symbol (b % 16 * 4) ∷ []
unpadded (a ∷ b ∷ c ∷ rest) =
    symbol (a / 4)
    ∷ symbol (a % 4 * 16 + b / 16)
    ∷ symbol (b % 16 * 4 + c / 64)
    ∷ symbol (c % 64)
    ∷ unpadded rest

rstrip-symbol :
    (v : ℕ) (xs : List ℕ) → v < 64 → rstrip b'=' (symbol v ∷ xs) ≡ symbol v ∷ rstrip b'=' xs
unfolding rstrip
rstrip-symbol v xs h = ground (arith, symbol-ne-pad v h)

b64-unpadded : (bs : List ℕ) → AllBytes bs → b64 bs ≡ unpadded bs
unfolding b64 unpadded
b64-unpadded [] h = refl
b64-unpadded (a ∷ []) h =
    rw (rstrip-symbol (a / 4) _ (omega arith), rstrip-symbol (a % 4 * 16) _ (omega arith))
b64-unpadded (a ∷ b ∷ []) h = rw (
  rstrip-symbol (a / 4) _ (omega arith),
  rstrip-symbol (a % 4 * 16 + b / 16) _ (omega arith),
  rstrip-symbol (b % 16 * 4) _ (omega arith),
)
b64-unpadded (a ∷ b ∷ c ∷ rest) h = rw (
  rstrip-symbol (a / 4) _ (omega arith),
  rstrip-symbol (a % 4 * 16 + b / 16) _ (omega arith),
  rstrip-symbol (b % 16 * 4 + c / 64) _ (omega arith),
  rstrip-symbol (c % 64) _ (omega arith),
  b64-unpadded rest h.1.1.1,
)

unpadded-ascii : (bs : List ℕ) → AllBytes bs → any (λ c. not (ltb c 128)) (unpadded bs) ≡ false
unfolding unpadded
unpadded-ascii [] h = refl
unpadded-ascii (a ∷ []) h =
    rw (symbol-lt (a / 4) (omega arith), symbol-lt (a % 4 * 16) (omega arith))
unpadded-ascii (a ∷ b ∷ []) h = rw (
  symbol-lt (a / 4) (omega arith),
  symbol-lt (a % 4 * 16 + b / 16) (omega arith),
  symbol-lt (b % 16 * 4) (omega arith),
)
unpadded-ascii (a ∷ b ∷ c ∷ rest) h = rw (
  symbol-lt (a / 4) (omega arith),
  symbol-lt (a % 4 * 16 + b / 16) (omega arith),
  symbol-lt (b % 16 * 4 + c / 64) (omega arith),
  symbol-lt (c % 64) (omega arith),
  unpadded-ascii rest h.1.1.1,
)

-- No character of the text is `sep`.
abbrev pub Lacks : ℕ → List ℕ → Type 0
Lacks sep [] = Unit
Lacks sep (c ∷ cs) = ((c == sep) ≡ false) × Lacks sep cs

symbol-ne-dot : (v : ℕ) → v < 64 → (symbol v == b'.') ≡ false
unfolding symbol
symbol-ne-dot v h = ground arith

unpadded-Lacks : (bs : List ℕ) → AllBytes bs → Lacks b'.' (unpadded bs)
unfolding unpadded
unpadded-Lacks [] h = tt
unpadded-Lacks (a ∷ []) h =
    (symbol-ne-dot (a / 4) (omega arith), (symbol-ne-dot (a % 4 * 16) (omega arith), tt))
unpadded-Lacks (a ∷ b ∷ []) h = (
  symbol-ne-dot (a / 4) (omega arith),
  (
    symbol-ne-dot (a % 4 * 16 + b / 16) (omega arith),
    (symbol-ne-dot (b % 16 * 4) (omega arith), tt),
  ),
)
unpadded-Lacks (a ∷ b ∷ c ∷ rest) h = (
  symbol-ne-dot (a / 4) (omega arith),
  (
    symbol-ne-dot (a % 4 * 16 + b / 16) (omega arith),
    (
      symbol-ne-dot (b % 16 * 4 + c / 64) (omega arith),
      (symbol-ne-dot (c % 64) (omega arith), unpadded-Lacks rest h.1.1.1),
    ),
  ),
)

pub b64-Lacks_dot : (bs : List ℕ) → AllBytes bs → Lacks b'.' (b64 bs)
b64-Lacks_dot bs h = rw (b64-unpadded bs h) (unpadded-Lacks bs h)

padding_period : (n : ℕ) → padding (suc (suc (suc (suc n)))) ≡ padding n
unfolding padding
padding_period n = let e : suc (suc (suc (suc n))) % 4 ≡ n % 4 = omega arith in rw e

-- The bytes that a group of four holds.
group_bytes :
    (a b c : ℕ)
    → a < 256
    → b < 256
    → c < 256
    → (a / 4 * 4 + (a % 4 * 16 + b / 16) / 16 ≡ a)
      × ((a % 4 * 16 + b / 16) % 16 * 16 + (b % 16 * 4 + c / 64) / 4 ≡ b)
      × ((b % 16 * 4 + c / 64) % 4 * 64 + c % 64 ≡ c)
group_bytes a b c ha hb hc = (omega arith, omega arith, omega arith)

decode_nothing : a2b_base64 first 0 (padding 0) ≡ some []
unfolding a2b_base64 padding
decode_nothing = refl

decode_pad_two : (left : ℕ) → a2b_base64 (third left) 0 (padding 2) ≡ some []
unfolding a2b_base64 padding
decode_pad_two left = refl

decode_pad_one : (left : ℕ) → a2b_base64 (fourth left) 0 (padding 3) ≡ some []
unfolding a2b_base64 padding
decode_pad_one left = refl

decode-unpadded :
    (bs : List ℕ)
    → AllBytes bs
    → a2b_base64 first 0 (unpadded bs ++ padding (length (unpadded bs))) ≡ some bs
unfolding unpadded
decode-unpadded [] h = decode_nothing
decode-unpadded (a ∷ []) h =
    let e : a / 4 * 4 + a % 4 * 16 / 16 ≡ a = omega arith in
    rw (
      decode_first (a / 4) (omega arith),
      decode_second (a % 4 * 16) (omega arith),
      decode_pad_two,
      e,
    )
decode-unpadded (a ∷ b ∷ []) h =
    let ea : a / 4 * 4 + (a % 4 * 16 + b / 16) / 16 ≡ a = omega arith in
    let eb : (a % 4 * 16 + b / 16) % 16 * 16 + b % 16 * 4 / 4 ≡ b = omega arith in
    rw (
      decode_first (a / 4) (omega arith),
      decode_second (a % 4 * 16 + b / 16) (omega arith),
      decode_third (b % 16 * 4) (omega arith),
      decode_pad_one,
      ea,
      eb,
    )
decode-unpadded (a ∷ b ∷ c ∷ rest) h =
    let (ea, eb, ec) = group_bytes a b c h.0 h.1.0 h.1.1.0 in
    rw (
      padding_period,
      decode_first (a / 4) (omega arith),
      decode_second (a % 4 * 16 + b / 16) (omega arith),
      decode_third (b % 16 * 4 + c / 64) (omega arith),
      decode_fourth (c % 64) (omega arith),
      decode-unpadded rest h.1.1.1,
      ea,
      eb,
      ec,
    )

-- Any bytes, encoded with the padding stripped, decode to themselves.
pub unb64-b64 : (bs : List ℕ) → AllBytes bs → unb64 (b64 bs) ≡ some bs
unfolding unb64
unb64-b64 bs h = rw (b64-unpadded bs h, unpadded-ascii bs h) (decode-unpadded bs h)
