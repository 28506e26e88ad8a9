-- ===== src/Text/Digits.antt =====
-- Decimal digits under `int`, in src/immich_bridge/fs_model.py.
use immich_bridge.Prelude.{
  ℕ, ◌+◌, ◌-◌, ◌*◌, ◌<◌, ◌≡◌, refl, Bool, true, false, some, List, [], ◌∷◌, arith, ◌==◌,
}
use immich_bridge.Json.{pos}
use immich_bridge.Text.{is_digit, is_space, digits_value, parse_int}

-- The character of a decimal digit.
abbrev pub digit : ℕ → ℕ
digit n = n + b'0'

pub is_digit-digit : (k : ℕ) → k < 10 → is_digit (digit k) ≡ true
is_digit-digit k h = ground arith

is_space-digit : (k : ℕ) → k < 10 → is_space (digit k) ≡ false
is_space-digit k h = ground arith

pub digit-ne : (k c : ℕ) → k < 10 → c < b'0' → (digit k == c) ≡ false
digit-ne k c h lt = ground arith

pub digits_value-digit :
    (after : Bool) (n k : ℕ) (rest : List ℕ)
    → k < 10
    → digits_value after n (digit k ∷ rest) ≡ digits_value true (n * 10 + k) rest
unfolding digits_value
digits_value-digit after n k rest h =
    let e : digit k - b'0' ≡ k = omega arith in rw (is_digit-digit k h, e)

digits_value-nil : (n : ℕ) → digits_value true n [] ≡ some n
unfolding digits_value
digits_value-nil n = refl

-- `int` of two digits
pub digits_value_two :
    (a b : ℕ) → a < 10 → b < 10 → digits_value false 0 (digit a ∷ digit b ∷ []) ≡ some (a * 10 + b)
digits_value_two a b ha hb =
    let e : 0 * 10 + a ≡ a = omega arith in
    rw (digits_value-digit false 0 a _ ha, digits_value-digit true (0 * 10 + a) b _ hb, e)
      (digits_value-nil _)

-- `int` of four digits
pub digits_value_four :
    (a b c d : ℕ)
    → a < 10
    → b < 10
    → c < 10
    → d < 10
    → digits_value false 0 (digit a ∷ digit b ∷ digit c ∷ digit d ∷ [])
      ≡ some (((a * 10 + b) * 10 + c) * 10 + d)
digits_value_four a b c d ha hb hc hd =
    let e : 0 * 10 + a ≡ a = omega arith in
    rw
      (
        digits_value-digit false 0 a _ ha,
        e,
        digits_value-digit true a b _ hb,
        digits_value-digit true (a * 10 + b) c _ hc,
        digits_value-digit true ((a * 10 + b) * 10 + c) d _ hd,
      )
      (digits_value-nil _)

pub parse_int_two :
    (a b : ℕ) → a < 10 → b < 10 → parse_int (digit a ∷ digit b ∷ []) ≡ some (pos (a * 10 + b))
unfolding parse_int
parse_int_two a b ha hb = rw (
  is_space-digit a ha,
  is_space-digit b hb,
  digit-ne a b'-' ha (omega arith),
  digit-ne a b'+' ha (omega arith),
  digits_value_two a b ha hb,
)

pub parse_int_four :
    (a b c d : ℕ)
    → a < 10
    → b < 10
    → c < 10
    → d < 10
    → parse_int (digit a ∷ digit b ∷ digit c ∷ digit d ∷ [])
      ≡ some (pos (((a * 10 + b) * 10 + c) * 10 + d))
unfolding parse_int
parse_int_four a b c d ha hb hc hd = rw (
  is_space-digit a ha,
  is_space-digit d hd,
  digit-ne a b'-' ha (omega arith),
  digit-ne a b'+' ha (omega arith),
  digits_value_four a b c d ha hb hc hd,
)
