-- ===== src/Share.antt =====
-- src/immich_bridge/share_auth.py: shared links, how they are read, which library they belong to, and
-- what Immich says of them. Numbers in JSON are integers, and white space is that of ASCII.
pub mod Match
pub mod Matched
pub mod Identity
mod Tests
use immich_bridge.Prelude.{
  ℕ, ◌+◌, String, Bool, true, false, not, Option, none, some, List, [], ◌∷◌, ◌==◌, leb, elem,
  str_eq, if◌then◌else◌, concat,
}
use Prim.Native.Char.{Char}
use mathlib.Core.List.{reverse}
use immich_bridge.Dict.{Dict, lookup}
use immich_bridge.Segment.{chars, of_chars, is_blank}
use immich_bridge.Paths.{path_parts}
use immich_bridge.Provider.{present_key}

-- What `urlparse` gives; `port` is `none` where reading it raises `ValueError`.
pub record ParseResult : Type 0 where
  pub scheme : String
  pub path : String
  pub query : String
  pub hostname : Option String
  pub port : Option (Option ℕ)

-- `urllib.parse` and `str.casefold`; `urlparse` is `none` where it raises `ValueError`.
pub record Urls : Type 0 where
  pub urlparse : String → Option ParseResult
  pub parse_qs : String → Dict (List String)
  pub casefold : String → String

pub record ParsedShareLink : Type 0 where
  pub url : String
  pub share_key : String
  pub scheme : String
  pub hostname : String
  pub port : Option ℕ

-- `invalid` is a `ShareLinkError`.
pub data Parsed : Type 0 where
  parsed : ParsedShareLink → Parsed
  invalid value_error : Parsed

abbrev lstrip_blanks : List Char → List Char
lstrip_blanks [] = []
lstrip_blanks (c ∷ cs) = let rest = lstrip_blanks cs in if is_blank c then rest else c ∷ cs

-- `text.strip()`
unfoldable pub strip : String → String
strip text = of_chars (reverse (lstrip_blanks (reverse (lstrip_blanks (chars text)))))

-- The first of the values of a key, if it is not empty.
abbrev first_value : Option (List String) → Option String
first_value none = none
first_value (some []) = none
first_value (some (v ∷ vs)) = present_key (some v)

pub first_query_value : Dict (List String) → List String → Option String
first_query_value query [] = none
first_query_value query (k ∷ ks) =
    let rest = first_query_value query ks in
    elim (first_value (lookup k query)) [ none ↦ rest | some v ↦ some v ]

abbrev head : List String → Option String
head [] = none
head (s ∷ ss) = some s

abbrev last : List String → Option String
last [] = none
last (s ∷ []) = some s
last (s ∷ t ∷ ss) = last (t ∷ ss)

-- The segment behind the first one that is the marker.
unfoldable pub behind : String → List String → Option String
behind marker [] = none
behind marker (s ∷ ss) = let rest = behind marker ss in if str_eq s marker then head ss else rest

unfoldable pub behind_any : List String → List String → Option String
unfolding behind
behind_any [] segments = last segments
behind_any (m ∷ ms) segments =
    let rest = behind_any ms segments in elim (behind m segments) [ none ↦ rest | some s ↦ some s ]

pub share_key_from_path : String → Option String
unfolding behind_any
share_key_from_path path =
    behind_any ("share" ∷ "shared-link" ∷ "shared-links" ∷ []) (path_parts path)

abbrev pub is_http : String → Bool
is_http scheme = elem scheme ("http" ∷ "https" ∷ [])

module _ (u : Urls) where
  pub share_key_of : ParseResult → Option String
  unfolding first_query_value share_key_from_path
  share_key_of r =
      elim (first_query_value (u.parse_qs r.query) ("key" ∷ "shareKey" ∷ "sharedKey" ∷ [])) [
        | none ↦ share_key_from_path r.path
        | some key ↦ some key
      ]

  -- The result, with the host and the key; the port is read last.
  pub link_of : String → ParseResult → String → Option String → Parsed
  link_of url r host none = invalid
  link_of url r host (some key) = elim r.port [
    | none ↦ value_error
    | some port ↦ parsed (record {
      url = url;
      share_key = key;
      scheme = r.scheme;
      hostname = u.casefold host;
      port = port;
    })
  ]

  pub link_from : String → Option ParseResult → Parsed
  unfolding link_of share_key_of
  link_from url none = value_error
  link_from url (some r) =
      if not (is_http r.scheme) then invalid else elim (present_key r.hostname) [
        | none ↦ invalid
        | some host ↦ link_of url r host (present_key (share_key_of r))
      ]

  unfoldable pub parse_share_link : String → Parsed
  unfolding link_from
  parse_share_link url = link_from (strip url) (u.urlparse (strip url))
