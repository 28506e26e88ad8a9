-- ===== src/Text/Decimals.antt =====
-- Numbers printed by `str` and read by `int`, in src/immich_bridge.
use immich_bridge.Prelude.{
  ℕ, zero, suc, Bool, true, false, ◌+◌, ◌-◌, length, length-append, ◌*◌, ◌/◌, ◌%◌, ◌<◌, ◌≤◌, ◌≡◌,
  refl, ap, sym, ◌∙◌, inl, inr, String, some, none, List, [], ◌∷◌, ◌++◌, append_assoc, append_nil,
  ltb, arith, concat, if◌then◌else◌, Bool-cases, ◌==◌,
}
use Prim.Native.Char.{code}
use mathlib.Core.Option
use mathlib.Core.List.{reverse, reverse_aux, reverse-reverse}
use immich_bridge.Json.{pos}
use immich_bridge.Text.{
  codes, is_digit, is_space, all_digits, strip, lstrip, split_once, digits_value, signed_value,
  parse_int,
}
use immich_bridge.Text.Digits.{digit, digits_value-digit, is_digit-digit}
use immich_bridge.Provider.Views.{digit_text, decimal_from, decimal}

pub codes-concat : (s t : String) → codes (concat s t) ≡ codes s ++ codes t
codes-concat String.[] t = refl
codes-concat (String.◌∷◌ c s) t = ap (λ l. code c ∷ l) (codes-concat s t)

pub codes-digit_text : (d : ℕ) → d < 10 → codes (digit_text d) ≡ digit d ∷ []
codes-digit_text zero h = refl
codes-digit_text (suc zero) h = refl
codes-digit_text (suc (suc zero)) h = refl
codes-digit_text (suc (suc (suc zero))) h = refl
codes-digit_text (suc (suc (suc (suc zero)))) h = refl
codes-digit_text (suc (suc (suc (suc (suc zero))))) h = refl
codes-digit_text (suc (suc (suc (suc (suc (suc zero)))))) h = refl
codes-digit_text (suc (suc (suc (suc (suc (suc (suc zero))))))) h = refl
codes-digit_text (suc (suc (suc (suc (suc (suc (suc (suc zero)))))))) h = refl
codes-digit_text (suc (suc (suc (suc (suc (suc (suc (suc (suc zero))))))))) h = refl
codes-digit_text (suc (suc (suc (suc (suc (suc (suc (suc (suc (suc d)))))))))) h =
    absurd (omega arith)

-- The last digit of a printed number stands behind those of the number without it.
codes-decimal_from :
    (fuel n : ℕ)
    → 10 ≤ n
    → codes (decimal_from (suc fuel) n)
      ≡ codes (decimal_from fuel (n / 10)) ++ (digit (n % 10) ∷ [])
unfolding decimal_from
codes-decimal_from fuel n h =
    let e : ltb n 10 ≡ false = ground arith in
    rw
      (
        e,
        codes-concat (decimal_from fuel (n / 10)) (digit_text (n % 10)),
        codes-digit_text (n % 10) (omega arith),
      )
      refl

codes-one_digit : (fuel n : ℕ) → n < 10 → codes (decimal_from (suc fuel) n) ≡ digit n ∷ []
unfolding decimal_from
codes-one_digit fuel n h = let e : ltb n 10 ≡ true = ground arith in rw e (codes-digit_text n h)

all_digits-append :
    (ds es : List ℕ) → all_digits ds ≡ true → all_digits es ≡ true → all_digits (ds ++ es) ≡ true
all_digits-append [] es h g = g
all_digits-append (d ∷ ds) es h g = ground (arith, all_digits-append ds es)

decimal_from-digits : (fuel n : ℕ) → all_digits (codes (decimal_from fuel n)) ≡ true
unfolding decimal_from
decimal_from-digits zero n = refl
decimal_from-digits (suc fuel) n = elim (Bool-cases (ltb n 10)) [
  | inl e ↦ rw (codes-one_digit fuel n (ground arith), is_digit-digit n (ground arith)) refl
  | inr e ↦ rw (codes-decimal_from fuel n (ground arith)) (
      all_digits-append (codes (decimal_from fuel (n / 10))) _ (decimal_from-digits fuel (n / 10))
        (rw (is_digit-digit (n % 10) (omega arith)) refl))
]

digits_value-decimal_from :
    (fuel n : ℕ) (rest : List ℕ)
    → n < fuel
    → digits_value false 0 (codes (decimal_from fuel n) ++ rest) ≡ digits_value true n rest
digits_value-decimal_from zero n rest h = absurd (omega arith)
digits_value-decimal_from (suc fuel) n rest h = elim (Bool-cases (ltb n 10)) [
  | inl e ↦
      let z : 0 * 10 + n ≡ n = omega arith in
      rw
        (codes-one_digit fuel n (ground arith), digits_value-digit false 0 n rest (ground arith), z)
        refl
  | inr e ↦
      let big : 10 ≤ n = ground arith in
      let z : n / 10 * 10 + n % 10 ≡ n = omega arith in
      rw
        (
          codes-decimal_from fuel n big,
          append_assoc (codes (decimal_from fuel (n / 10))) (digit (n % 10) ∷ []) rest,
          digits_value-decimal_from fuel (n / 10) (digit (n % 10) ∷ rest) (omega arith),
          digits_value-digit true (n / 10) (n % 10) rest (omega arith),
          z,
        )
        refl
]

-- A text without white space
abbrev pub unspaced : List ℕ → Bool
unspaced [] = true
unspaced (c ∷ cs) = if is_space c then false else unspaced cs

digit-IsSolid : (c : ℕ) → is_digit c ≡ true → is_space c ≡ false
digit-IsSolid c h = ground arith

pub digits-unspaced : (cs : List ℕ) → all_digits cs ≡ true → unspaced cs ≡ true
digits-unspaced [] h = refl
digits-unspaced (c ∷ cs) h = ground (arith, digits-unspaced cs, digit-IsSolid c)

pub unspaced-append :
    (cs ds : List ℕ) → unspaced cs ≡ true → unspaced ds ≡ true → unspaced (cs ++ ds) ≡ true
unspaced-append [] ds h g = g
unspaced-append (c ∷ cs) ds h g = ground (arith, unspaced-append cs ds)

reverse_aux-unspaced :
    (cs ds : List ℕ) → unspaced cs ≡ true → unspaced ds ≡ true → unspaced (reverse_aux cs ds) ≡ true
reverse_aux-unspaced [] ds h g = g
reverse_aux-unspaced (c ∷ cs) ds h g =
    reverse_aux-unspaced cs (c ∷ ds) (ground arith) (ground arith)

lstrip-unspaced : (cs : List ℕ) → unspaced cs ≡ true → lstrip cs ≡ cs
lstrip-unspaced [] h = refl
lstrip-unspaced (c ∷ cs) h = ground arith

pub strip-unspaced : (cs : List ℕ) → unspaced cs ≡ true → strip cs ≡ cs
unfolding strip
strip-unspaced cs h =
    rw (lstrip-unspaced cs h, lstrip-unspaced (reverse cs) (reverse_aux-unspaced cs [] h refl))
      (reverse-reverse cs)

-- A separator that is no digit is not found among digits.
pub split_once-digits :
    (sep : ℕ) (ds rest : List ℕ)
    → is_digit sep ≡ false
    → all_digits ds ≡ true
    → split_once sep (ds ++ (sep ∷ rest)) ≡ some (ds, rest)
unfolding split_once
split_once-digits sep [] rest h g = let e : (sep == sep) ≡ true = ground arith in rw e refl
split_once-digits sep (d ∷ ds) rest h g =
    let e : (d == sep) ≡ false = ground arith in
    rw (e, split_once-digits sep ds rest h (ground arith)) refl

pub no_separator :
    (sep : ℕ) (ds rest : List ℕ)
    → is_digit sep ≡ false
    → all_digits ds ≡ true
    → split_once sep rest ≡ none
    → split_once sep (ds ++ rest) ≡ none
unfolding split_once
no_separator sep [] rest h g n = n
no_separator sep (d ∷ ds) rest h g n =
    let e : (d == sep) ≡ false = ground arith in
    rw (e, no_separator sep ds rest h (ground arith) n) refl

signed_value-digits :
    (d : ℕ) (ds : List ℕ)
    → is_digit d ≡ true
    → signed_value (d ∷ ds) ≡ Option.map pos (digits_value false 0 (d ∷ ds))
unfolding signed_value
signed_value-digits d ds h =
    let e : (d == b'-') ≡ false = ground arith in
    let f : (d == b'+') ≡ false = ground arith in rw (e, f) refl

-- The text of a printed number: digits, at least one, which `int` reads back.
pub record IsPrinted (n : ℕ) (cs : List ℕ) : Type 0 where
  pub first : ℕ
  pub others : List ℕ
  pub text : cs ≡ first ∷ others
  pub digits : all_digits cs ≡ true
  pub read : parse_int cs ≡ some (pos n)

parse_int-digits :
    (n d : ℕ) (ds : List ℕ)
    → all_digits (d ∷ ds) ≡ true
    → digits_value false 0 (d ∷ ds) ≡ some n
    → parse_int (d ∷ ds) ≡ some (pos n)
unfolding parse_int
parse_int-digits n d ds h v =
    rw
      (
        strip-unspaced (d ∷ ds) (digits-unspaced (d ∷ ds) h),
        signed_value-digits d ds (ground arith),
        v,
      )
      refl

printed_lem :
    (n : ℕ) (cs : List ℕ) → all_digits cs ≡ true → digits_value false 0 cs ≡ some n → IsPrinted n cs
unfolding digits_value
printed_lem n [] h v = absurd (ground arith)
printed_lem n (d ∷ ds) h v = record {
  first = d;
  others = ds;
  text = refl;
  digits = h;
  read = parse_int-digits n d ds h v;
}

pub decimal-IsPrinted : (n : ℕ) → IsPrinted n (codes (decimal n))
unfolding decimal digits_value
decimal-IsPrinted n =
    printed_lem n (codes (decimal_from (suc n) n)) (decimal_from-digits (suc n) n) (
      ap (digits_value false 0) (sym (append_nil (codes (decimal_from (suc n) n))))
      ∙ digits_value-decimal_from (suc n) n [] (omega arith))

four_from :
    (fuel n : ℕ)
    → 1000 ≤ n
    → n < 10000
    → codes (decimal_from (suc (suc (suc (suc fuel)))) n)
      ≡ digit (n / 1000) ∷ digit (n / 100 % 10) ∷ digit (n / 10 % 10) ∷ digit (n % 10) ∷ []
four_from fuel n h k =
    let a : n / 10 / 10 ≡ n / 100 = omega arith in
    let b : n / 100 / 10 ≡ n / 1000 = omega arith in
    rw
      (
        codes-decimal_from (suc (suc (suc fuel))) n (omega arith),
        codes-decimal_from (suc (suc fuel)) (n / 10) (omega arith),
        a,
        codes-decimal_from (suc fuel) (n / 100) (omega arith),
        b,
        codes-one_digit fuel (n / 1000) (omega arith),
      )
      refl

-- The four digits of a number that has four.
pub codes-decimal_four :
    (n : ℕ)
    → 1000 ≤ n
    → n < 10000
    → codes (decimal n)
      ≡ digit (n / 1000) ∷ digit (n / 100 % 10) ∷ digit (n / 10 % 10) ∷ digit (n % 10) ∷ []
unfolding decimal
codes-decimal_four n h k =
    let e : n ≡ suc (suc (suc (n - 3))) = omega arith in
    ap (λ (fuel : ℕ). codes (decimal_from (suc fuel) n)) e ∙ four_from (n - 3) n h k

-- One digit more than the number without its last.
length_step :
    (fuel n : ℕ)
    → length (codes (decimal_from (suc fuel) n)) ≤ 1 + length (codes (decimal_from fuel (n / 10)))
length_step fuel n = elim (Bool-cases (ltb n 10)) [
  | inl e ↦ rw (codes-one_digit fuel n (ground arith)) (omega arith)
  | inr e ↦
      rw (codes-decimal_from fuel n (ground arith))
        (omega (arith, length-append (codes (decimal_from fuel (n / 10))) (digit (n % 10) ∷ [])))
]

one_short : (fuel n : ℕ) → n < 10 → length (codes (decimal_from fuel n)) ≤ 1
unfolding decimal_from
one_short zero n h = omega arith
one_short (suc fuel) n h = rw (codes-one_digit fuel n h) (omega arith)

two_short : (fuel n : ℕ) → n < 100 → length (codes (decimal_from fuel n)) ≤ 2
unfolding decimal_from
two_short zero n h = omega arith
two_short (suc fuel) n h = omega (arith, length_step fuel n, one_short fuel (n / 10) (omega arith))

-- A number below 1000 has at most three digits.
pub length-decimal_short : (n : ℕ) → n < 1000 → length (codes (decimal n)) ≤ 3
unfolding decimal
length-decimal_short n h = omega (arith, length_step n n, two_short n (n / 10) (omega arith))
