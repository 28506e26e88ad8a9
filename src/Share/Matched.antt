-- ===== src/Share/Matched.antt =====
-- src/immich_bridge/share_auth.py: the libraries that a link belongs to.
use immich_bridge.Prelude.{
  ℕ, String, Bool, true, false, Option, none, some, List, [], ◌∷◌, ◌≡◌, ◌⊎◌, inl, inr, refl, arith,
  str_eq, eq_iff, Bool-cases, Option-cases,
}
use immich_bridge.Paths.{rstrip_slash}
use immich_bridge.Provider.{present_key}
use immich_bridge.Service.Sets.Laws.{In}
use immich_bridge.Share.{ParseResult, Urls, ParsedShareLink, strip}
use immich_bridge.Share.Match.{
  normalized_port, is_port, or_try, host_and_port_match, parsed_match, url_port, host_port,
  url_matches_share_link, host_text, host_matches_share_link, any_host, public_url_matches,
  share_link_matches_library,
}

is_port_lem : (a : Option ℕ) (p : ℕ) → is_port a p ≡ true → some p ≡ a
is_port_lem none p h = absurd (ground arith)
is_port_lem (some n) p h = ground arith

or_try_lem : (a b : Option Bool) → or_try a b ≡ some true → (a ≡ some true) ⊎ (b ≡ some true)
or_try_lem none b h = absurd (ground arith)
or_try_lem (some true) b h = inl refl
or_try_lem (some false) b h = inr h

module _ (u : Urls) (link : ParsedShareLink) where
  -- The address has the link's host, and names no port or the link's.
  pub record IsSameServer (port_of : ParseResult → Option ℕ) (address : String) : Type 0 where
    pub parts : ParseResult
    pub is_parsed : u.urlparse address ≡ some parts
    pub host : String
    pub named : present_key parts.hostname ≡ some host
    pub same_host : u.casefold host ≡ link.hostname
    pub same_port : (port_of parts ≡ none) ⊎ (port_of parts ≡ normalized_port link.scheme link.port)

  -- The library's own address, its public one or one of its hosts is the link's server.
  abbrev pub BelongsTo : String → Option String → List String → Type 0
  BelongsTo library_url public_url share_hosts =
      IsSameServer url_port (rstrip_slash library_url)
      ⊎ (((url : String) × (public_url ≡ some url) × IsSameServer url_port (rstrip_slash url))
          ⊎ ((host : String) × In host share_hosts
              × IsSameServer host_port (host_text (u.casefold (strip host)))))

  host_and_port_match_lem :
      (host : String) (port : Option ℕ)
      → host_and_port_match u link host port ≡ true
      → (u.casefold host ≡ link.hostname)
        × ((port ≡ none) ⊎ (port ≡ normalized_port link.scheme link.port))
  unfolding host_and_port_match
  host_and_port_match_lem host none h = ((eq_iff (u.casefold host) link.hostname).0 h, inl refl)
  host_and_port_match_lem host (some p) h =
      elim (Bool-cases (str_eq (u.casefold host) link.hostname)) [
        | inl e ↦ (
          (eq_iff (u.casefold host) link.hostname).0 e,
          inr (is_port_lem (normalized_port link.scheme link.port) p (ground arith)),
        )
        | inr e ↦ absurd (ground arith)
      ]

  parsed_match-IsSameServer :
      (port_of : ParseResult → Option ℕ) (address : String)
      → parsed_match u link port_of (u.urlparse address) ≡ some true
      → IsSameServer port_of address
  unfolding parsed_match
  parsed_match-IsSameServer port_of address h = elim (Option-cases (u.urlparse address)) [
    | inl e ↦ absurd (ground arith)
    | inr (r, e) ↦ elim (Option-cases (present_key r.hostname)) [
      | inl f ↦ absurd (ground arith)
      | inr (host, f) ↦
          let (same_host, same_port) = host_and_port_match_lem host (port_of r) (ground arith) in
          record {
            parts = r;
            is_parsed = e;
            host = host;
            named = f;
            same_host = same_host;
            same_port = same_port;
          }
    ]
  ]

  host_matches_lem :
      (host : String)
      → host_matches_share_link u link host ≡ some true
      → IsSameServer host_port (host_text (u.casefold (strip host)))
  unfolding host_matches_share_link
  host_matches_lem host h = elim (Bool-cases (str_eq (u.casefold (strip host)) "")) [
    | inl e ↦ absurd (ground arith)
    | inr e ↦
        parsed_match-IsSameServer host_port (host_text (u.casefold (strip host))) (ground arith)
  ]

  any_host-In :
      (hosts : List String)
      → any_host u link hosts ≡ some true
      → (host : String) × In host hosts
        × IsSameServer host_port (host_text (u.casefold (strip host)))
  unfolding any_host
  any_host-In [] h = absurd (ground arith)
  any_host-In (host ∷ hosts) h =
      elim (or_try_lem (host_matches_share_link u link host) (any_host u link hosts) h) [
        | inl e ↦ (host, inl refl, host_matches_lem host e)
        | inr e ↦ let (found, i, s) = any_host-In hosts e in (found, inr i, s)
      ]

  public_url_lem :
      (public_url : Option String)
      → public_url_matches u link public_url ≡ some true
      → (url : String) × (public_url ≡ some url) × IsSameServer url_port (rstrip_slash url)
  unfolding public_url_matches url_matches_share_link
  public_url_lem none h = absurd (ground arith)
  public_url_lem (some url) h = elim (Bool-cases (str_eq url "")) [
    | inl e ↦ absurd (ground arith)
    | inr e ↦ (url, refl, parsed_match-IsSameServer url_port (rstrip_slash url) (ground arith))
  ]

  -- A share link is found to belong to a library only if the library's own address, its public
  -- address or one of its share hosts has the host of the link, and also the port of the link, or
  -- no port at all. Where the scheme is http or https and no port is named, the port is the
  -- standard one, for addresses, share hosts and the link alike.
  pub share_link-BelongsTo :
      (library_url : String) (public_url : Option String) (share_hosts : List String)
      → share_link_matches_library u link library_url public_url share_hosts ≡ some true
      → BelongsTo library_url public_url share_hosts
  unfolding share_link_matches_library url_matches_share_link
  share_link-BelongsTo library_url public_url share_hosts h =
      elim (or_try_lem (url_matches_share_link u link library_url) _ h) [
        | inl e ↦ inl (parsed_match-IsSameServer url_port (rstrip_slash library_url) e)
        | inr e ↦
            elim (or_try_lem (public_url_matches u link public_url) (any_host u link share_hosts)
              e) [
                | inl f ↦ inr (inl (public_url_lem public_url f))
                | inr f ↦ inr (inr (any_host-In share_hosts f))
              ]
      ]
