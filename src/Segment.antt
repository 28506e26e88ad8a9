-- ===== src/Segment.antt =====
-- `safe_segment` of src/immich_bridge/fs_model.py: a path segment that Windows and WebDAV clients
-- accept. White space is that of ASCII.
pub mod Laws
mod Tests
use immich_bridge.Prelude.{
  ℕ, zero, suc, String, Bool, true, false, not, ◌&&◌, ◌||◌, List, [], ◌∷◌, ◌==◌, ltb, leb, take,
  any, if◌then◌else◌, str_eq,
}
use Prim.Native.Char.{Char, code}
use mathlib.Core.List.{reverse}

abbrev pub chars : String → List Char
chars String.[] = []
chars (String.◌∷◌ c s) = c ∷ chars s

abbrev pub of_chars : List Char → String
of_chars [] = String.[]
of_chars (c ∷ cs) = String.◌∷◌ c (of_chars cs)

-- `[<>:"/\\|?*\x00-\x1f]`
unfoldable pub is_unsafe : Char → Bool
is_unsafe ch =
    let c = code ch in
    (c == b'<')
    || (c == b'>')
    || (c == b':')
    || (c == 34)
    || (c == b'/')
    || (c == 92)
    || (c == b'|')
    || (c == b'?')
    || (c == b'*')
    || ltb c 32

abbrev pub is_blank : Char → Bool
is_blank ch = let c = code ch in (leb 9 c && leb c 13) || (leb 28 c && leb c 32)

-- `WINDOWS_UNSAFE_CHARS.sub("-", text)`
unfoldable pub replace_unsafe : List Char → List Char
replace_unsafe [] = []
replace_unsafe (c ∷ cs) = (if is_unsafe c then "-" else c) ∷ replace_unsafe cs

-- `WHITESPACE.sub(" ", text)`; the flag says whether a run of white space is being skipped
unfoldable pub collapse : Bool → List Char → List Char
collapse skipping [] = []
collapse skipping (c ∷ cs) =
    let rest = collapse (is_blank c) cs in
    if is_blank c then (if skipping then rest else " " ∷ rest) else c ∷ rest

-- A character that `strip(" .")` removes.
abbrev pub is_edge : Char → Bool
is_edge ch = (code ch == b' ') || (code ch == b'.')

unfoldable pub lstrip_edges : List Char → List Char
lstrip_edges [] = []
lstrip_edges (c ∷ cs) = let rest = lstrip_edges cs in if is_edge c then rest else c ∷ cs

-- `text.strip(" .")`
unfoldable pub strip_edges : List Char → List Char
unfolding lstrip_edges
strip_edges cs = reverse (lstrip_edges (reverse (lstrip_edges cs)))

abbrev pub or_else : List Char → List Char → List Char
or_else [] fallback = fallback
or_else (c ∷ cs) fallback = c ∷ cs

-- After `text = str(value or fallback)`.
unfoldable pub safe_chars : List Char → List Char → ℕ → List Char
unfolding replace_unsafe collapse strip_edges
safe_chars text fallback max_length =
    or_else
      (strip_edges
        (take max_length (or_else (strip_edges (collapse false (replace_unsafe text))) fallback)))
      fallback

-- `value or fallback`, of a text
abbrev text_or : String → String → String
text_or text fallback = if str_eq text "" then fallback else text

unfoldable pub safe_segment : String → String → ℕ → String
unfolding safe_chars
safe_segment text fallback max_length =
    of_chars (safe_chars (chars (text_or text fallback)) (chars fallback) max_length)
