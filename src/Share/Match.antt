-- ===== src/Share/Match.antt =====
-- src/immich_bridge/share_auth.py, `share_link_matches_library`: whether a shared link belongs to a
-- library.
use immich_bridge.Prelude.{
  ℕ, String, Bool, true, false, Option, none, some, List, [], ◌∷◌, ◌||◌, ◌==◌, str_eq,
  if◌then◌else◌, concat,
}
use immich_bridge.Text.{codes, startswith}
use immich_bridge.Paths.{rstrip_slash}
use immich_bridge.Provider.{present_key}
use immich_bridge.Share.{ParseResult, Urls, ParsedShareLink, strip, is_http}

unfoldable pub normalized_port : String → Option ℕ → Option ℕ
normalized_port scheme (some port) = some port
normalized_port scheme none =
    if str_eq scheme "https" then some 443 else if str_eq scheme "http" then some 80 else none

abbrev pub safe_port : ParseResult → Option ℕ
safe_port r = elim r.port [ none ↦ none | some port ↦ port ]

abbrev pub is_port : Option ℕ → ℕ → Bool
is_port none port = false
is_port (some n) port = port == n

-- `"://" in text`
unfoldable pub has_scheme_mark : List ℕ → Bool
has_scheme_mark [] = false
has_scheme_mark (c ∷ cs) =
    let rest = has_scheme_mark cs in startswith (c ∷ cs) (b':' ∷ b'/' ∷ b'/' ∷ []) || rest

-- `or` where a test may raise `ValueError`, which is `none`.
abbrev pub or_try : Option Bool → Option Bool → Option Bool
or_try none b = none
or_try (some true) b = some true
or_try (some false) b = b

unfoldable pub url_port : ParseResult → Option ℕ
unfolding normalized_port
url_port r = normalized_port r.scheme (safe_port r)

-- A host without a scheme stands for any port, if it names none.
unfoldable pub host_port : ParseResult → Option ℕ
unfolding normalized_port
host_port r = if is_http r.scheme then normalized_port r.scheme (safe_port r) else safe_port r

-- What of a configured host is parsed.
unfoldable pub host_text : String → String
unfolding has_scheme_mark
host_text raw = if has_scheme_mark (codes raw) then rstrip_slash raw else concat "//" raw

module _ (u : Urls) (link : ParsedShareLink) where
  unfoldable pub host_and_port_match : String → Option ℕ → Bool
  unfolding normalized_port
  host_and_port_match host none = str_eq (u.casefold host) link.hostname
  host_and_port_match host (some port) =
      if str_eq (u.casefold host) link.hostname
      then is_port (normalized_port link.scheme link.port) port
      else false

  -- The match of a parsed address, by the port it stands for.
  unfoldable pub parsed_match : (ParseResult → Option ℕ) → Option ParseResult → Option Bool
  unfolding host_and_port_match
  parsed_match port_of none = none
  parsed_match port_of (some r) = elim (present_key r.hostname) [
    | none ↦ some false
    | some host ↦ some (host_and_port_match host (port_of r))
  ]

  unfoldable pub url_matches_share_link : String → Option Bool
  unfolding parsed_match url_port
  url_matches_share_link url = parsed_match url_port (u.urlparse (rstrip_slash url))

  unfoldable pub host_matches_share_link : String → Option Bool
  unfolding parsed_match host_port host_text
  host_matches_share_link host =
      let raw = u.casefold (strip host) in
      if str_eq raw "" then some false else parsed_match host_port (u.urlparse (host_text raw))

  unfoldable pub any_host : List String → Option Bool
  unfolding host_matches_share_link
  any_host [] = some false
  any_host (h ∷ hs) = let rest = any_host hs in or_try (host_matches_share_link h) rest

  unfoldable pub public_url_matches : Option String → Option Bool
  unfolding url_matches_share_link
  public_url_matches public_url = elim (present_key public_url) [
    | none ↦ some false
    | some url ↦ url_matches_share_link url
  ]

  unfoldable pub share_link_matches_library : String → Option String → List String → Option Bool
  unfolding url_matches_share_link public_url_matches any_host
  share_link_matches_library library_url public_url share_hosts =
      or_try (url_matches_share_link library_url)
        (or_try (public_url_matches public_url) (any_host share_hosts))
