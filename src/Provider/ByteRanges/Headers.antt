-- ===== src/Provider/ByteRanges/Headers.antt =====
-- src/immich_bridge/webdav_provider.py, `byte_range_from_header`, and src/immich_bridge/immich_client.py,
-- `_open_original_response`: the Range header that the client writes, as the provider reads one.
use immich_bridge.Prelude.{
  ℕ, true, false, none, some, List, [], ◌∷◌, ◌++◌, ◌≡◌, ◌≤◌, refl, sym, subst, ap, ◌∙◌, append_nil,
  concat, ltb, arith, String,
}
use mathlib.Core.Option.{some-injective}
use immich_bridge.Json.{str, pos}
use immich_bridge.Text.{codes, split_once, startswith, strip, is_digit, all_digits, parse_int}
use immich_bridge.Text.Decimals.{
  codes-concat, digits-unspaced, unspaced-append, strip-unspaced, split_once-digits, no_separator,
  IsPrinted, decimal-IsPrinted, unspaced,
}
use immich_bridge.Provider.Views.{decimal}
use immich_bridge.Provider.ByteRanges.{
  first_range, end_after, range_of_texts, range_of_spec, byte_range_from_header,
}
use immich_bridge.Client.Originals.{range_header}

end_after-printed :
    (start end : ℕ) (e : ℕ) (es : List ℕ)
    → start ≤ end
    → parse_int (e ∷ es) ≡ some (pos end)
    → end_after start (e ∷ es) ≡ some (record { start = start; end = some end })
unfolding end_after
end_after-printed start end e es h p =
    let forward : ltb end start ≡ false = ground arith in rw (end_after, p, forward) refl

range_of_digits :
    (start end : ℕ) (d : ℕ) (ds : List ℕ) (es : List ℕ)
    → start ≤ end
    → parse_int (d ∷ ds) ≡ some (pos start)
    → IsPrinted end es
    → range_of_texts (d ∷ ds) es ≡ some (record { start = start; end = some end })
unfolding range_of_texts
range_of_digits start end d ds es h p e =
    rw (range_of_texts, p)
      (ap (end_after start) e.text
        ∙ end_after-printed start end e.first e.others h (ap parse_int (sym e.text) ∙ e.read))

range_of_texts-printed :
    (start end : ℕ) (ds es : List ℕ)
    → start ≤ end
    → IsPrinted start ds
    → IsPrinted end es
    → range_of_texts ds es ≡ some (record { start = start; end = some end })
range_of_texts-printed start end ds es h d e =
    ap (λ (t : List ℕ). range_of_texts t es) d.text
    ∙ range_of_digits start end d.first d.others es h (ap parse_int (sym d.text) ∙ d.read) e

first_digit : (c : ℕ) (cs : List ℕ) → all_digits (c ∷ cs) ≡ true → is_digit c ≡ true
first_digit c cs h = ground arith

no_dash_first : (c : ℕ) (cs : List ℕ) → is_digit c ≡ true → startswith (c ∷ cs) (b'-' ∷ []) ≡ false
no_dash_first c cs h = ground arith

range_of_spec-printed :
    (start end : ℕ) (ds es : List ℕ)
    → start ≤ end
    → IsPrinted start ds
    → IsPrinted end es
    → range_of_spec (ds ++ (b'-' ∷ es)) ≡ some (record { start = start; end = some end })
unfolding range_of_spec
range_of_spec-printed start end ds es h d e =
    let digit : is_digit d.first ≡ true =
      first_digit d.first d.others (ap all_digits (sym d.text) ∙ d.digits) in
    let dash : startswith (ds ++ (b'-' ∷ es)) (b'-' ∷ []) ≡ false =
      rw d.text (no_dash_first d.first (d.others ++ (b'-' ∷ es)) digit) in
    rw
      (
        dash,
        split_once-digits b'-' ds es refl d.digits,
        strip-unspaced ds (digits-unspaced ds d.digits),
        strip-unspaced es (digits-unspaced es e.digits),
      )
      (range_of_texts-printed start end ds es h d e)

first_range-whole : (text : List ℕ) → split_once b',' text ≡ none → first_range text ≡ text
unfolding first_range
first_range-whole text h = rw (first_range, h) refl

digits_have_no_comma : (es : List ℕ) → all_digits es ≡ true → split_once b',' es ≡ none
unfolding split_once
digits_have_no_comma es h =
    ap (split_once b',') (sym (append_nil es)) ∙ no_separator b',' es [] refl h refl

spec_has_no_comma :
    (ds es : List ℕ)
    → all_digits ds ≡ true
    → all_digits es ≡ true
    → split_once b',' (ds ++ (b'-' ∷ es)) ≡ none
unfolding split_once
spec_has_no_comma ds es d e =
    no_separator b',' ds (b'-' ∷ es) refl d (rw (digits_have_no_comma es e) refl)

spec-unspaced :
    (ds es : List ℕ)
    → all_digits ds ≡ true
    → all_digits es ≡ true
    → unspaced (ds ++ (b'-' ∷ es)) ≡ true
spec-unspaced ds es d e =
    unspaced-append ds (b'-' ∷ es) (digits-unspaced ds d) (digits-unspaced es e)

-- The text of a range, with what comes before and after its dash.
range_of_spec_text :
    (start end : ℕ) (ds es : List ℕ)
    → start ≤ end
    → IsPrinted start ds
    → IsPrinted end es
    → range_of_spec (strip (first_range (ds ++ (b'-' ∷ es))))
      ≡ some (record { start = start; end = some end })
range_of_spec_text start end ds es h d e =
    rw
      (
        first_range-whole (ds ++ (b'-' ∷ es)) (spec_has_no_comma ds es d.digits e.digits),
        strip-unspaced (ds ++ (b'-' ∷ es)) (spec-unspaced ds es d.digits e.digits),
      )
      (range_of_spec-printed start end ds es h d e)

codes-range :
    (start end : ℕ)
    → codes (concat (decimal start) (concat "-" (decimal end)))
      ≡ codes (decimal start) ++ (b'-' ∷ codes (decimal end))
codes-range start end = codes-concat (decimal start) (concat "-" (decimal end))

header_read :
    (start end : ℕ)
    → start ≤ end
    → byte_range_from_header
        (str (concat "bytes=" (concat (decimal start) (concat "-" (decimal end)))))
      ≡ some (record { start = start; end = some end })
unfolding byte_range_from_header
header_read start end h = rw (codes-range start end) (
    range_of_spec_text start end (codes (decimal start)) (codes (decimal end)) h
      (decimal-IsPrinted start) (decimal-IsPrinted end))

-- The Range header that the client sends to Immich for the bytes from `start` to `end`, where
-- `end` is not below `start`, is read by the provider as exactly that range.
pub range_header_read :
    (start end : ℕ) (header : String)
    → start ≤ end
    → range_header (some start) (some end) ≡ some header
    → byte_range_from_header (str header) ≡ some (record { start = start; end = some end })
unfolding range_header
range_header_read start end header h e =
    subst
      (λ (t : String).
        byte_range_from_header (str t) ≡ some (record { start = start; end = some end }))
      (some-injective _ _ e) (header_read start end h)
