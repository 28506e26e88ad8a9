-- ===== src/Share/Tests.antt =====
-- A link of a library at a public address.
use immich_bridge.Prelude.{none, some, [], ◌≡◌, refl, str_eq, if◌then◌else◌}
use immich_bridge.Paths.{rstrip_slash, split_slash, path_parts}
use immich_bridge.Dict.{lookup}
use immich_bridge.Share.{Urls, ParsedShareLink, strip, behind, behind_any, parsed, parse_share_link}
use immich_bridge.Share.Match.{
  share_link_matches_library, url_matches_share_link, parsed_match, url_port, normalized_port,
  host_and_port_match, public_url_matches,
}
use immich_bridge.Share.Matched.{BelongsTo, share_link-BelongsTo}

-- Reads two addresses.
abbrev urls : Urls
urls = record {
  urlparse = λ text. some (record {
    scheme = "https";
    path = "/share/abc";
    query = "";
    hostname = some (if str_eq text "http://immich:2283" then "immich" else "photos.example");
    port = some (if str_eq text "http://immich:2283" then some 2283 else none);
  });
  parse_qs = λ query. [];
  casefold = λ text. text;
}

abbrev link : ParsedShareLink
link = record {
  url = "https://photos.example/share/abc";
  share_key = "abc";
  scheme = "https";
  hostname = "photos.example";
  port = none;
}

link_is_parsed : parse_share_link urls "https://photos.example/share/abc" ≡ parsed link
unfolding parse_share_link strip behind behind_any split_slash lookup path_parts
link_is_parsed = refl

share_link-BelongsTo_example :
    BelongsTo urls link "http://immich:2283/" (some "https://photos.example") []
unfolding share_link_matches_library url_matches_share_link parsed_match url_port normalized_port
    host_and_port_match public_url_matches rstrip_slash
share_link-BelongsTo_example =
    share_link-BelongsTo urls link "http://immich:2283/" (some "https://photos.example") [] refl
