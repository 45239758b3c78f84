-- ===== src/Proxy/Tests.antt =====
-- Requests through the proxy, and the theorems at concrete requests.
use edge_cdn_store.Common.{◌≡◌, ◌⊎◌, ◌↔◌, refl, none, some, [], ok, err, true, false}
use edge_cdn_store.Common.Text.{Text, codes, text_eq}
use edge_cdn_store.Common.Str.{
  trim, contains_char, split_first, parse_u16, to_ascii_lowercase, contains_text,
}
use edge_cdn_store.Common.State.{internal_error, connect_error, http_status}
use edge_cdn_store.Host.{parse_host_authority}
use edge_cdn_store.Proxy.{
  Session, EdgeCdnProxy, HttpPeer, new_proxy, upstream_peer, cache_key_callback, primary_key,
  forbids_store, response_filter,
}
use edge_cdn_store.Proxy.Peer.{AsksTls, IsPortOf, upstream_peer_ok, upstream_peer_err}
use edge_cdn_store.Proxy.Key.{with_host, primary_key_iff}

abbrev bare : Session
bare = record {
  header = λ name. none;
  server_port = some 6143;
  path_and_query = some (codes "/a?b");
  upstream_used = true;
}

proxy : EdgeCdnProxy
unfolding new_proxy
proxy = new_proxy 6188 6143

abbrev asked : Text → Session
asked host = with_host bare host

parsed : parse_host_authority (trim (codes "GitHub.com:444")) ≡ ok (codes "GitHub.com", some 444)
unfolding parse_host_authority trim contains_char split_first parse_u16
parsed = refl

given : (asked (codes "GitHub.com:444")).header (codes "Host") ≡ some (codes "GitHub.com:444")
unfolding text_eq
given = refl

key_example :
    cache_key_callback proxy (asked (codes "GitHub.com:444")) ≡ ok (codes "https://github.com/a?b")
unfolding cache_key_callback parse_host_authority trim contains_char split_first parse_u16 text_eq
    to_ascii_lowercase proxy
key_example = refl

peer : HttpPeer
peer = record { host = codes "GitHub.com"; port = 444; tls = true; sni = codes "GitHub.com" }

goes_there : upstream_peer proxy (asked (codes "GitHub.com:444")) ≡ ok peer
unfolding upstream_peer parse_host_authority trim contains_char split_first parse_u16 text_eq proxy
    peer
goes_there = refl

upstream_peer_ok_example :
    let s = asked (codes "GitHub.com:444") in
    (p : HttpPeer) × (upstream_peer proxy s ≡ ok p)
    × (p.host ≡ codes "GitHub.com")
    × ((AsksTls proxy s (some 444)
          × (p.tls ≡ true)
          × (p.sni ≡ codes "GitHub.com")
          × IsPortOf (some 444) 443 p.port)
        ⊎ (¬ AsksTls proxy s (some 444)
            × (p.tls ≡ false)
            × (p.sni ≡ [])
            × IsPortOf (some 444) 80 p.port))
upstream_peer_ok_example =
    upstream_peer_ok proxy (asked (codes "GitHub.com:444")) (codes "GitHub.com:444")
      (codes "GitHub.com") (some 444) given parsed

refused : upstream_peer proxy (asked (codes "a b")) ≡ err internal_error
unfolding upstream_peer parse_host_authority trim contains_char split_first parse_u16 text_eq
refused = refl

upstream_peer_err_example :
    (((asked (codes "a b")).header (codes "Host") ≡ none) × (internal_error ≡ connect_error))
    ⊎ ((raw : Text) × ((asked (codes "a b")).header (codes "Host") ≡ some raw)
        × (parse_host_authority (trim raw) ≡ err (http_status 400))
        × (internal_error ≡ internal_error))
upstream_peer_err_example = upstream_peer_err proxy (asked (codes "a b")) internal_error refused

no_slash : contains_char b'/' (codes "GitHub.com") ≡ false
unfolding contains_char
no_slash = refl

primary_key_iff_example :
    (primary_key true (codes "GitHub.com") (codes "/a")
      ≡ primary_key false (codes "GitHub.com") (codes "/b"))
    ↔ ((true ≡ false)
        × (to_ascii_lowercase (codes "GitHub.com") ≡ to_ascii_lowercase (codes "GitHub.com"))
        × (codes "a" ≡ codes "b"))
primary_key_iff_example =
    primary_key_iff true false (codes "GitHub.com") (codes "GitHub.com") (codes "a") (codes "b")
      no_slash no_slash

forbidden : forbids_store (some (codes "private, No-Store")) ≡ true
unfolding contains_text to_ascii_lowercase
forbidden = refl

fetched : response_filter bare ≡ codes "MISS"
unfolding response_filter
fetched = refl
