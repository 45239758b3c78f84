-- ===== src/Proxy/Peer.antt =====
-- Where a request goes (`upstream_peer`), and when the cache is used (`request_cache_filter`).
use edge_cdn_store.Common.{
  ℕ, ◌≤◌, ◌≡◌, ◌⊎◌, ◌↔◌, inl, inr, false, ◌||◌, [], ◌++◌, Option, none, some, ok, err, arith, refl,
  ◌∙◌, ap, true, Bool, Bool-cases, Option-cases, Result-cases,
}
use edge_cdn_store.Common.Text.{Text, codes, decimal, text_eq_iff}
use edge_cdn_store.Common.Str.{trim, to_ascii_lowercase, eq_ignore_ascii_case}
use edge_cdn_store.Common.State.{ErrorType, internal_error, connect_error, http_status}
use edge_cdn_store.Host.{parse_host_authority}
use edge_cdn_store.Host.Bounds.{IsHost, parse_host_authority_ok, parse_host_authority_err}
use edge_cdn_store.Proxy.{
  Session, EdgeCdnProxy, HttpPeer, scheme_from_hdr, listener_https, is_https, upstream_peer,
  new_proxy, request_cache_filter, default_port_https, port_or, https, is_port,
}

-- When a request asks for TLS: by the scheme header; by x-forwarded-proto, where there is no scheme
-- header; by the listener that it came over, where there is neither; or by the port 443. A header
-- that is no text is as one that is not there.
pub data AsksTls (x : EdgeCdnProxy) (s : Session) (port : Option ℕ) : Type 0 where
  by_scheme :
      (v : Text)
      → s.header (codes ":scheme") ≡ some v
      → to_ascii_lowercase v ≡ codes "https"
      → AsksTls x s port
  by_forwarded_proto :
      (v : Text)
      → s.header (codes ":scheme") ≡ none
      → s.header (codes "x-forwarded-proto") ≡ some v
      → to_ascii_lowercase v ≡ codes "https"
      → AsksTls x s port
  by_listener :
      s.header (codes ":scheme") ≡ none
      → s.header (codes "x-forwarded-proto") ≡ none
      → s.server_port ≡ some x.listen_https
      → AsksTls x s port
  by_port : port ≡ some 443 → AsksTls x s port

eq_ignore_ascii_case-https :
    (v : Text) → (eq_ignore_ascii_case v https ≡ true) ↔ (to_ascii_lowercase v ≡ codes "https")
unfolding eq_ignore_ascii_case
eq_ignore_ascii_case-https v = text_eq_iff (to_ascii_lowercase v) (codes "https")

is_port-some : (port : Option ℕ) (n : ℕ) → (is_port port n ≡ true) ↔ (port ≡ some n)
is_port-some none n = (λ e. absurd (cc e), λ e. absurd (cc e))
is_port-some (some p) n = (λ e. ground (arith, e), λ e. ground (arith, e))

-- The port of the peer: the given one, or this default.
abbrev pub IsPortOf : Option ℕ → ℕ → ℕ → Type 0
IsPortOf port default n = (port ≡ some n) ⊎ ((port ≡ none) × (n ≡ default))

port_or-IsPortOf : (port : Option ℕ) (default : ℕ) → IsPortOf port default (port_or port default)
port_or-IsPortOf none default = inr (refl, refl)
port_or-IsPortOf (some p) default = inl refl

module _ (x : EdgeCdnProxy) (s : Session) where
  abbrev asks : Option ℕ → Bool
  asks port = is_https (scheme_from_hdr s) (listener_https x s) || is_port port default_port_https

  asks-AsksTls : (port : Option ℕ) → asks port ≡ true → AsksTls x s port
  unfolding scheme_from_hdr
  asks-AsksTls port e = elim (Bool-cases (is_port port default_port_https)) [
    | inl secure ↦ by_port ((is_port-some port 443).0 secure)
    | inr other ↦ elim (Option-cases (s.header (codes ":scheme"))) [
      | inr (v, given) ↦
          by_scheme v given ((eq_ignore_ascii_case-https v).0 (ground (arith, e, other, given)))
      | inl missing ↦ elim (Option-cases (s.header (codes "x-forwarded-proto"))) [
        | inr (v, given) ↦
            by_forwarded_proto v missing given
              ((eq_ignore_ascii_case-https v).0 (ground (arith, e, other, missing, given)))
        | inl none_given ↦ by_listener missing none_given (
            (is_port-some s.server_port x.listen_https).0
              (ground (arith, e, other, missing, none_given)))
      ]
    ]
  ]

  AsksTls-asks : (port : Option ℕ) → AsksTls x s port → asks port ≡ true
  unfolding scheme_from_hdr
  AsksTls-asks port (by_scheme v given secure) =
      ground (arith, given, (eq_ignore_ascii_case-https v).1 secure)
  AsksTls-asks port (by_forwarded_proto v missing given secure) =
      ground (arith, missing, given, (eq_ignore_ascii_case-https v).1 secure)
  AsksTls-asks port (by_listener missing missing' here) =
      ground (arith, missing, missing', (is_port-some s.server_port x.listen_https).1 here)
  AsksTls-asks port (by_port e) = ground (arith, (is_port-some port 443).1 e)

  -- A request with a Host header that can be parsed reaches a peer at the host. Either the request
  -- asks for TLS, and the peer has TLS with the host as the server name, at the given port or at
  -- 443; or it does not, and the peer has no TLS and no server name, at the given port or at 80.
  -- TLS is asked for by the scheme header, by x-forwarded-proto where that is missing, by the
  -- listener where both are missing, or by the port 443.
  pub upstream_peer_ok :
      (raw host : Text) (port : Option ℕ)
      → s.header (codes "Host") ≡ some raw
      → parse_host_authority (trim raw) ≡ ok (host, port)
      → (p : HttpPeer) × (upstream_peer x s ≡ ok p)
        × (p.host ≡ host)
        × ((AsksTls x s port × (p.tls ≡ true) × (p.sni ≡ host) × IsPortOf port 443 p.port)
            ⊎ (¬ AsksTls x s port × (p.tls ≡ false) × (p.sni ≡ []) × IsPortOf port 80 p.port))
  unfolding upstream_peer
  upstream_peer_ok raw host port given parsed = elim (Bool-cases (asks port)) [
    | inl secure ↦ (
      record { host = host; port = port_or port 443; tls = true; sni = host },
      ground (arith, given, parsed, secure),
      refl,
      inl (asks-AsksTls port secure, refl, refl, port_or-IsPortOf port 443),
    )
    | inr open_text ↦ (
      record { host = host; port = port_or port 80; tls = false; sni = [] },
      ground (arith, given, parsed, open_text),
      refl,
      inr (
        (λ a. absurd (cc (open_text, AsksTls-asks port a))),
        refl,
        refl,
        port_or-IsPortOf port 80,
      ),
    )
  ]

  -- Every peer has a port below 65536 and a host with no `/`, space and `:`, or with no `]`.
  pub upstream_peer-bounds :
      (p : HttpPeer) → upstream_peer x s ≡ ok p → (p.port ≤ 65535) × IsHost p.host
  unfolding upstream_peer
  upstream_peer-bounds p e = elim (Option-cases (s.header (codes "Host"))) [
    | inl missing ↦ absurd (ground arith)
    | inr (raw, given) ↦ elim (Result-cases (parse_host_authority (trim raw))) [
      | inr (y, failed) ↦ absurd (ground arith)
      | inl ((host, none), parsed) ↦
          ground (arith, parse_host_authority_ok (trim raw) host none parsed)
      | inl ((host, some n), parsed) ↦
          let (shape, bound) = parse_host_authority_ok (trim raw) host (some n) parsed in
          ground (arith, shape, bound)
    ]
  ]

  -- A missing Host header is answered by a connect error. One that cannot be parsed is answered by
  -- an internal error, although the parser refused it with the status 400.
  pub upstream_peer_err :
      (e : ErrorType)
      → upstream_peer x s ≡ err e
      → ((s.header (codes "Host") ≡ none) × (e ≡ connect_error))
        ⊎ ((raw : Text) × (s.header (codes "Host") ≡ some raw)
            × (parse_host_authority (trim raw) ≡ err (http_status 400))
            × (e ≡ internal_error))
  unfolding upstream_peer
  upstream_peer_err e h = elim (Option-cases (s.header (codes "Host"))) [
    | inl missing ↦ inl (ground arith)
    | inr (raw, given) ↦ elim (Result-cases (parse_host_authority (trim raw))) [
      | inr (y, failed) ↦
          let bad : y ≡ http_status 400 = parse_host_authority_err (trim raw) y failed in
          inr (raw, given, failed ∙ ap err bad, ground arith)
      | inl (hp, parsed) ↦ absurd (ground arith)
    ]
  ]

-- A request with a Host header is kept from the cache exactly when the header is the proxy's own
-- loopback address with one of its two ports.
pub request_cache_filter_self :
    (http_port https_port : ℕ) (s : Session) (host : Text)
    → s.header (codes "Host") ≡ some host
    → (request_cache_filter (new_proxy http_port https_port) s ≡ false) ↔ (
        (host ≡ codes "127.0.0.1:" ++ decimal http_port)
        ⊎ (host ≡ codes "127.0.0.1:" ++ decimal https_port))
unfolding request_cache_filter new_proxy
request_cache_filter_self http_port https_port s host given = ground (
  arith,
  text_eq_iff (codes "127.0.0.1:" ++ decimal http_port) host,
  text_eq_iff (codes "127.0.0.1:" ++ decimal https_port) host,
)
