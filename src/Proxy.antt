-- ===== src/Proxy.antt =====
-- The proxy's decisions (src/proxy.rs): where a request goes, whether the cache is used, the key
-- of a request, and whether a response is kept.
pub mod Peer
pub mod Key
pub mod Response
mod Tests
use edge_cdn_store.Common.{
  ℕ, ◌+◌, Bool, true, false, not, ◌&&◌, ◌||◌, List, [], ◌∷◌, ◌++◌, Option, none, some, Result, ok,
  err, ◌==◌, leb, if◌then◌else◌,
}
use edge_cdn_store.Common.Text.{Text, codes, decimal, text_eq}
use edge_cdn_store.Common.Str.{trim, to_ascii_lowercase, eq_ignore_ascii_case, contains_text}
use edge_cdn_store.Common.State.{ErrorType, internal_error, connect_error}
use edge_cdn_store.Host.{parse_host_authority}

-- What the proxy asks of a session. `header` is the value of a header as text, if it is there and
-- is text; `server_port` the port of the listener, if its address is an internet address.
pub record Session : Type 0 where
  pub header : Text → Option Text
  pub server_port : Option ℕ
  pub path_and_query : Option Text
  pub upstream_used : Bool

pub record EdgeCdnProxy : Type 0 where
  pub self_addresses : List Text
  pub listen_http : ℕ
  pub listen_https : ℕ

-- consts.rs
abbrev pub default_port_http : ℕ
default_port_http = 80

abbrev pub default_port_https : ℕ
default_port_https = 443

abbrev pub one_hour : ℕ
one_hour = 3600

abbrev pub https : Text
https = codes "https"

abbrev pub http : Text
http = codes "http"

-- `LOCALHOST` prints as 127.0.0.1.
abbrev self_address : ℕ → Text
self_address port = codes "127.0.0.1:" ++ decimal port

unfoldable pub new_proxy : ℕ → ℕ → EdgeCdnProxy
new_proxy listen_http listen_https = record {
  self_addresses =
      self_address listen_http
      ∷ self_address listen_http
      ∷ self_address listen_https
      ∷ self_address listen_https
      ∷ [];
  listen_http = listen_http;
  listen_https = listen_https;
}

abbrev or_else : Option Text → Option Text → Option Text
or_else (some s) t = some s
or_else none t = t

unfoldable pub scheme_from_hdr : Session → Option Text
scheme_from_hdr s = or_else (s.header (codes ":scheme")) (s.header (codes "x-forwarded-proto"))

-- The arguments of `HttpPeer::new`.
pub record HttpPeer : Type 0 where
  pub host : Text
  pub port : ℕ
  pub tls : Bool
  pub sni : Text

abbrev is_port : Option ℕ → ℕ → Bool
is_port none q = false
is_port (some p) q = p == q

abbrev pub port_or : Option ℕ → ℕ → ℕ
port_or none q = q
port_or (some p) q = p

-- The request came over the TLS listener.
abbrev pub listener_https : EdgeCdnProxy → Session → Bool
listener_https x s = is_port s.server_port x.listen_https

-- `hdr_scheme.map(…).unwrap_or(listener)`
abbrev pub is_https : Option Text → Bool → Bool
is_https none listener = listener
is_https (some scheme) listener = eq_ignore_ascii_case scheme https

peer_for : EdgeCdnProxy → Session → Text × Option ℕ → HttpPeer
peer_for x s (host, port) =
    let use_https =
      is_https (scheme_from_hdr s) (listener_https x s) || is_port port default_port_https in
    record {
      host = host;
      port = port_or port (if use_https then default_port_https else default_port_http);
      tls = use_https;
      sni = if use_https then host else [];
    }

peer_of : EdgeCdnProxy → Session → Result ErrorType (Text × Option ℕ) → Result ErrorType HttpPeer
unfolding peer_for
peer_of x s (ok parsed) = ok (peer_for x s parsed)
peer_of x s (err _) = err internal_error

peer_at : EdgeCdnProxy → Session → Option Text → Result ErrorType HttpPeer
unfolding peer_of
peer_at x s none = err connect_error
peer_at x s (some host) = peer_of x s (parse_host_authority (trim host))

unfoldable pub upstream_peer : EdgeCdnProxy → Session → Result ErrorType HttpPeer
unfolding peer_at scheme_from_hdr
upstream_peer x s = peer_at x s (s.header (codes "Host"))

abbrev text_or : Option Text → Text → Text
text_or none t = t
text_or (some s) t = s

pub is_listed : Text → List Text → Bool
is_listed host [] = false
is_listed host (a ∷ rest) = text_eq a host || is_listed host rest

-- Whether the cache is enabled for the request.
unfoldable pub request_cache_filter : EdgeCdnProxy → Session → Bool
unfolding is_listed
request_cache_filter x s = not (is_listed (text_or (s.header (codes "Host")) []) x.self_addresses)

-- `format!("{scheme}://{host_lc}{path_q}")`
abbrev pub primary_key : Bool → Text → Text → Text
primary_key tls host path_q =
    (if tls then https else http) ++ (codes "://" ++ (to_ascii_lowercase host ++ path_q))

key_of : EdgeCdnProxy → Session → Result ErrorType (Text × Option ℕ) → Result ErrorType Text
key_of x s (ok (host, _)) = ok (
    primary_key (is_https (scheme_from_hdr s) (listener_https x s)) host
      (text_or s.path_and_query (codes "/")))
key_of x s (err _) = err internal_error

-- The primary key; the namespace and the user tag are empty.
unfoldable pub cache_key_callback : EdgeCdnProxy → Session → Result ErrorType Text
unfolding key_of scheme_from_hdr
cache_key_callback x s = key_of x s (parse_host_authority (text_or (s.header (codes "Host")) []))

-- `RespCacheable`: until when the response is fresh and when it was stored, in seconds.
pub data RespCacheable : Type 0 where
  cacheable : ℕ → ℕ → RespCacheable
  non_success origin_not_cache : RespCacheable

abbrev pub is_success : ℕ → Bool
is_success status = leb 200 status && leb status 299

abbrev pub forbids_store : Option Text → Bool
forbids_store none = false
forbids_store (some cc) = contains_text (to_ascii_lowercase cc) (codes "no-store")

-- A response by its status and its Cache-Control header, if that is text.
unfoldable pub response_cache_filter : ℕ → Option Text → ℕ → RespCacheable
response_cache_filter status cache_control now =
    if not (is_success status)
    then non_success
    else if forbids_store cache_control
    then origin_not_cache
    else cacheable (now + one_hour) now

-- A hit is never invalidated by force.
abbrev pub cache_hit_filter : Option (Unit {0})
cache_hit_filter = none

-- The values that the proxy gives to the header x-cdn-cache, of a response from the origin and then
-- of one to the client.
abbrev pub upstream_response_filter : Text
upstream_response_filter = codes "MISS"

unfoldable pub response_filter : Session → Text
response_filter s = if s.upstream_used then codes "MISS" else codes "HIT"
