-- ===== src/Startup/Main/Outcome.antt =====
-- How `main` ends: with the services over one cache, or before any cache was made.
use edge_cdn_store.Common.{
  ℕ, ◌≡◌, refl, ap, [], ◌∷◌, ◌++◌, some, Result, ok, err, is_ok, false, arith, ◌⊎◌, inl, inr,
  Result-cases,
}
use edge_cdn_store.Common.Text.{Text, codes, decimal}
use edge_cdn_store.Common.Str.{parse_u16}
use edge_cdn_store.Common.State.{ErrorType, Failure, error, panicked}
use edge_cdn_store.Utils.{Environment, env_var_or_num}
use edge_cdn_store.Disk.Registry.{IsLawfulRegistry}
use edge_cdn_store.Disk.Files.{IoError}
use edge_cdn_store.Disk.Paths.{DiskCache}
use edge_cdn_store.Inspector.Stop.{new_handle}
use edge_cdn_store.Logging.{BackgroundLogger}
use edge_cdn_store.Proxy.{new_proxy}
use edge_cdn_store.Startup.{
  path_to_app_log, server_keys_dir, eviction_manager_cfg, default_proxy_port_http,
  default_proxy_port_https,
}
use edge_cdn_store.Startup.Paths.{use_app_log, use_keys, use_max_bytes}
use edge_cdn_store.Startup.Cells.{Libraries, Process, disk_cache, tiered_static}
use edge_cdn_store.Startup.Cells.First.{tiers_of, disk_cache_set}
use edge_cdn_store.Startup.Cells.Shared.{
  Reach, IsReady, use_statics, Use-IsReady, Reach-IsReady, disk_cache_ok, tiered_static_of,
}
use edge_cdn_store.Startup.Main.{
  Service, background_logger, http_proxy, persist_cache_on_shutdown, stop_inspector_on_shutdown,
  ServerCalls, Started, listen_address, launch, main,
}

abbrev pub http_port : Environment → ℕ
http_port env = env_var_or_num parse_u16 env (codes "PROXY_HTTP_PORT") default_proxy_port_http

abbrev pub https_port : Environment → ℕ
https_port env = env_var_or_num parse_u16 env (codes "PROXY_HTTPS_PORT") default_proxy_port_https

module _ (X : Libraries) (L : IsLawfulRegistry X.registry) (calls : ServerCalls) (env : Environment)
    (now : ℕ) where
  -- The process when the certificate is read: two directories are fixed, and nothing else is.
  abbrev at_tls : Process X → Process X
  at_tls p = record p {
    statics = (server_keys_dir env (server_keys_dir env (path_to_app_log env p.statics).1).1).1;
  }

  at_tls-IsReady : (p : Process X) → IsReady X p → IsReady X (at_tls p)
  at_tls-IsReady p i =
      let p1 = record p { statics = (path_to_app_log env p.statics).1 } in
      let p2 = record p1 { statics = (server_keys_dir env p1.statics).1 } in
      Use-IsReady X L (use_statics (use_keys env)) (
        Use-IsReady X L {p = p1} {p' = p2} (use_statics (use_keys env))
          (Use-IsReady X L (use_statics (use_app_log env)) i))

  abbrev certificate : Process X → Result ErrorType (Unit {0})
  certificate p =
      calls.add_tls (listen_address (https_port env))
        ((server_keys_dir env (path_to_app_log env p.statics).1).0 ++ codes "/server.crt")
        ((server_keys_dir env (server_keys_dir env (path_to_app_log env p.statics).1).1).0
          ++ codes "/server.pem")

  main_no_server :
      (p : Process X) (x : ErrorType)
      → calls.new_server ≡ err x
      → main X calls env now p ≡ (err (error x), p)
  unfolding main
  main_no_server p x e = ground arith

  main_no_tls :
      (p : Process X) (x : ErrorType)
      → calls.new_server ≡ ok tt
      → certificate p ≡ err x
      → main X calls env now p ≡ (err (error x), at_tls p)
  unfolding main
  main_no_tls p x e f = ground arith

  -- The service that logs, and the proxy with its listeners, as `main` makes them.
  abbrev pub logger_at : Process X → BackgroundLogger
  logger_at p = record {
    path = (path_to_app_log env p.statics).0;
    filter = some (codes "edge_cdn_store=debug,pingora=info");
  }

  abbrev pub proxy_at : Process X → Service
  proxy_at p =
      http_proxy (new_proxy (http_port env) (https_port env)) (listen_address (http_port env))
        (listen_address (https_port env))
        ((server_keys_dir env (path_to_app_log env p.statics).1).0 ++ codes "/server.crt")
        ((server_keys_dir env (server_keys_dir env (path_to_app_log env p.statics).1).1).0
          ++ codes "/server.pem")

  main-launch :
      (p : Process X)
      → calls.new_server ≡ ok tt
      → certificate p ≡ ok tt
      → main X calls env now p
        ≡ launch X calls.spawn env now
            (logger_at p)
            (proxy_at p)
            (listen_address (http_port env))
            (listen_address (https_port env))
            (at_tls p)
  unfolding main
  main-launch p e f = ground arith

  module _ (logger : BackgroundLogger) (proxy : Service) (tcp tls : Text) (p q : Process X)
      (c : DiskCache) (first : disk_cache X env now p ≡ (ok c, q))
      (second : disk_cache X env now q ≡ (ok c, q)) where
    launch_failed :
        (x : IoError)
        → calls.spawn ≡ err x
        → launch X calls.spawn env now logger proxy tcp tls p ≡ (err panicked, q)
    unfolding launch
    launch_failed x g = rw (first, second, g)

    launch_ok :
        calls.spawn ≡ ok tt
        → launch X calls.spawn env now logger proxy tcp tls p ≡ (
          ok (record {
            services =
                background_logger logger
                ∷ proxy
                ∷ persist_cache_on_shutdown c
                ∷ stop_inspector_on_shutdown new_handle
                ∷ [];
            inspector = record { port = 8080; shown = c; handle = new_handle };
            announced =
                (codes "Edge CDN proxy started: Cache size = "
                  ++ (decimal (eviction_manager_cfg env q.statics).0 ++ codes " bytes"))
                ∷ (codes "    HTTP  proxy listening on " ++ (tcp ++ codes "..."))
                ∷ (codes "    HTTPS proxy listening on " ++ (tls ++ codes "..."))
                ∷ [];
          }),
          record q { statics = (eviction_manager_cfg env q.statics).1 },
        )
    unfolding launch
    launch_ok g = rw (first, second, g)

  -- An error of `Server::new` or of `add_tls`: no file and no metric was touched, and no cache made.
  pub record Refused (p : Process X) (d : Result Failure Started × Process X) : Type 0 where
    pub cause : ErrorType
    pub said : d.0 ≡ err (error cause)
    pub why : (calls.new_server ≡ err cause) ⊎ (certificate p ≡ err cause)
    pub cache_cell_kept : d.1.cache_cell ≡ p.cache_cell
    pub files_kept : d.1.fs ≡ p.fs
    pub registry_kept : d.1.registry ≡ p.registry
    pub metrics_kept : d.1.metrics ≡ p.metrics

  pub record Unthreaded (d : Result Failure Started × Process X) : Type 0 where
    pub said : d.0 ≡ err panicked
    pub why : is_ok calls.spawn ≡ false

  -- The four services in their order. The one that saves the statistics, the inspector, and the
  -- tiers that requests will use have the same cache.
  pub record Running (p : Process X) (d : Result Failure Started × Process X) : Type 0 where
    pub cache : DiskCache
    pub result : Started
    pub said : d.0 ≡ ok result
    pub in_order :
        result.services
        ≡ background_logger (logger_at p)
          ∷ proxy_at p
          ∷ persist_cache_on_shutdown cache
          ∷ stop_inspector_on_shutdown result.inspector.handle
          ∷ []
    pub shown : result.inspector.shown ≡ cache
    pub requests :
        (env' : Environment) (now' : ℕ) → (tiered_static X env' now' d.1).0 ≡ ok (tiers_of cache)

  ends_early :
      (p q : Process X) (x : ErrorType) (d : Result Failure Started × Process X)
      → d ≡ (err (error x), q)
      → (calls.new_server ≡ err x) ⊎ (certificate p ≡ err x)
      → (q.cache_cell ≡ p.cache_cell)
        × (q.fs ≡ p.fs)
        × (q.registry ≡ p.registry)
        × (q.metrics ≡ p.metrics)
      → Refused p d
  ends_early p q x d e why (cell, fs, registry, metrics) = rw e (record {
    cause = x;
    said = refl;
    why = why;
    cache_cell_kept = cell;
    files_kept = fs;
    registry_kept = registry;
    metrics_kept = metrics;
  })

  launched :
      (p : Process X)
      → IsReady X p
      → calls.new_server ≡ ok tt
      → certificate p ≡ ok tt
      → Unthreaded (main X calls env now p) ⊎ Running p (main X calls env now p)
  launched p i served certified =
      let (c, said, cell, tiers, ready) =
        disk_cache_ok X L env now (at_tls p) (at_tls-IsReady p i) in
      let q = (disk_cache X env now (at_tls p)).1 in
      let first : disk_cache X env now (at_tls p) ≡ (ok c, q) =
        ap (λ (r : Result Failure DiskCache). (r, q)) said in
      let second = disk_cache_set X L env now q c cell in
      rw (main-launch p served certified) (elim (Result-cases calls.spawn) [
        | inr (x, failed) ↦ inl (
            rw (launch_failed (logger_at p) (proxy_at p) _ _ (at_tls p) q c first second x failed)
              (record { said = refl; why = rw failed refl }))
        | inl (_, spawned) ↦ inr (
            rw (launch_ok (logger_at p) (proxy_at p) _ _ (at_tls p) q c first second spawned)
              (record {
                cache = c;
                result = _;
                said = refl;
                in_order = refl;
                shown = refl;
                requests = λ env' now'.
                    tiered_static_of X L env' now'
                      (record q { statics = (eviction_manager_cfg env q.statics).1 }) c
                      (Use-IsReady X L (use_statics (use_max_bytes env)) ready) cell;
              }))
      ])

  -- From any state of the process that uses of its cells can reach, `main` ends in one of three
  -- ways. An error of `Server::new` or of `add_tls` ends it, before a cache is made or a file or a
  -- metric is touched. Or the thread of the inspector cannot be spawned, and it panics. Or it
  -- starts its four services, and the one that saves the statistics, the inspector, and the tiers
  -- for the requests have one and the same cache.
  pub main_outcome :
      {p : Process X}
      → Reach X p
      → Refused p (main X calls env now p)
        ⊎ (Unthreaded (main X calls env now p) ⊎ Running p (main X calls env now p))
  main_outcome {p} r = elim (Result-cases calls.new_server) [
    | inr (x, failed) ↦
        inl (ends_early p p x _ (main_no_server p x failed) (inl failed) (refl, refl, refl, refl))
    | inl (_, served) ↦ elim (Result-cases (certificate p)) [
      | inr (x, failed) ↦ inl (
          ends_early p (at_tls p) x _ (main_no_tls p x served failed) (inr failed)
            (refl, refl, refl, refl))
      | inl (_, certified) ↦ inr (launched p (Reach-IsReady X L r) served certified)
    ]
  ]
