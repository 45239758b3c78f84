-- ===== src/Startup/Listen.antt =====
-- The ports that the server listens at, and the requests that it keeps from its own cache.
use edge_cdn_store.Common.{
  ℕ, ◌≤◌, ◌≡◌, refl, ap, ◌∙◌, false, ◌⊎◌, inl, inr, List, [], ◌∷◌, ◌++◌, some, ok, arith,
  Option-cases,
}
use edge_cdn_store.Common.Text.{Text, codes, decimal, text_eq}
use edge_cdn_store.Common.Str.{parse_u16, trim}
use edge_cdn_store.Utils.{Environment, env_var_or_num}
use edge_cdn_store.Proxy.{EdgeCdnProxy, Session, new_proxy, request_cache_filter}
use edge_cdn_store.Proxy.Peer.{request_cache_filter_self}
use edge_cdn_store.Common.Str.Number.{parse_u16-le}
use edge_cdn_store.Proxy.Key.{with_host}
use edge_cdn_store.Logging.{BackgroundLogger}
use edge_cdn_store.Disk.Registry.{IsLawfulRegistry}
use edge_cdn_store.Startup.Cells.{Libraries, Process}
use edge_cdn_store.Startup.Cells.Shared.{Reach}
use edge_cdn_store.Startup.Main.{
  Service, Started, ServerCalls, http_proxy, background_logger, persist_cache_on_shutdown,
  stop_inspector_on_shutdown, listen_address, main,
}
use edge_cdn_store.Startup.Main.Outcome.{
  http_port, https_port, logger_at, Refused, Unthreaded, Running, main_outcome,
}

with_host-header :
    (s : Session) (host : Text) → (with_host s host).header (codes "Host") ≡ some host
unfolding text_eq
with_host-header s host = refl

abbrev pub port_of : Environment → Text → ℕ → ℕ
port_of env name default = env_var_or_num parse_u16 env name default

port_of-le :
    (env : Environment) (name : Text) (default : ℕ)
    → default ≤ 65535
    → port_of env name default ≤ 65535
unfolding env_var_or_num
port_of-le env name default h = elim (Option-cases (env name)) [
  | inl missing ↦ ground arith
  | inr (s, given) ↦ elim (Option-cases (parse_u16 (trim s))) [
    | inl bad ↦ ground arith
    | inr (n, good) ↦ ground (arith, parse_u16-le (trim s) n good)
  ]
]

-- A service that proxies to a listener of each kind.
pub data ListensAt (r : Started) (p : EdgeCdnProxy) (n n' : ℕ) : Type 0 where
  listens :
      (log : BackgroundLogger) (crt pem : Text) (rest : List Service)
      → r.services
        ≡ background_logger log ∷ http_proxy p (listen_address n) (listen_address n') crt pem ∷ rest
      → ListensAt r p n n'

listens_when :
    (X : Libraries) (L : IsLawfulRegistry X.registry) (calls : ServerCalls) (env : Environment)
    (now : ℕ) {p : Process X} (started : Started)
    → Refused X L calls env now p (main X calls env now p)
      ⊎ (Unthreaded X L calls env now (main X calls env now p)
          ⊎ Running X L calls env now p (main X calls env now p))
    → (main X calls env now p).0 ≡ ok started
    → ListensAt started
        (new_proxy (http_port env) (https_port env))
        (http_port env)
        (https_port env)
listens_when X L calls env now started (inl refused) e = cc (refused.said, e)
listens_when X L calls env now started (inr (inl panic)) e = cc (panic.said, e)
listens_when X L calls env now {p} started (inr (inr running)) e =
    let same : started ≡ running.result = cc (running.said, e) in
    listens (logger_at X L calls env now p) _ _
      (persist_cache_on_shutdown running.cache
        ∷ stop_inspector_on_shutdown running.result.inspector.handle
        ∷ [])
      (ap (λ (r : Started). r.services) same ∙ running.in_order)

-- If the server starts, it listens at two ports below 65536, and a request whose Host header is
-- the loopback address with one of these two ports is not cached, whatever else it holds.
pub main-request_cache_filter :
    (X : Libraries) (L : IsLawfulRegistry X.registry) (calls : ServerCalls) (env : Environment)
    (now : ℕ) {p : Process X} (started : Started) (s : Session)
    → Reach X p
    → (main X calls env now p).0 ≡ ok started
    → (proxy : EdgeCdnProxy) × (n : ℕ) × (n' : ℕ) × ListensAt started proxy n n'
      × (n ≤ 65535)
      × (n' ≤ 65535)
      × (request_cache_filter proxy (with_host s (codes "127.0.0.1:" ++ decimal n)) ≡ false)
      × (request_cache_filter proxy (with_host s (codes "127.0.0.1:" ++ decimal n')) ≡ false)
main-request_cache_filter X L calls env now {p} started s r e =
    let n = http_port env in
    let n' = https_port env in
    let host = codes "127.0.0.1:" ++ decimal n in
    let host' = codes "127.0.0.1:" ++ decimal n' in
    (
      new_proxy n n',
      n,
      n',
      listens_when X L calls env now started (main_outcome X L calls env now r) e,
      port_of-le env _ _ (omega arith),
      port_of-le env _ _ (omega arith),
      (request_cache_filter_self n n' (with_host s host) host (with_host-header s host)).1
          (inl refl),
      (request_cache_filter_self n n' (with_host s host') host' (with_host-header s host')).1
          (inr refl),
    )
