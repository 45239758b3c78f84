-- ===== src/Startup/Main.antt =====
-- `main` (src/main.rs): what is started, in which order, and how it may fail.
pub mod Outcome
use edge_cdn_store.Common.{ℕ, ◌≡◌, List, [], ◌∷◌, ◌++◌, Option, none, some, Result, ok, err}
use edge_cdn_store.Common.Text.{Text, codes, decimal}
use edge_cdn_store.Common.Str.{parse_u16}
use edge_cdn_store.Common.State.{M, pure, ◌>>=◌, ◌>>◌, ErrorType, panicked}
use edge_cdn_store.Utils.{Environment, env_var_or_num}
use edge_cdn_store.Disk.Files.{IoError}
use edge_cdn_store.Disk.Paths.{DiskCache}
use edge_cdn_store.Disk.Store.{raise}
use edge_cdn_store.Inspector.Stop.{InspectorHandle, new_handle}
use edge_cdn_store.Logging.{BackgroundLogger}
use edge_cdn_store.Proxy.{EdgeCdnProxy, new_proxy}
use edge_cdn_store.Startup.{
  path_to_app_log, server_keys_dir, eviction_manager_cfg, default_proxy_port_http,
  default_proxy_port_https,
}
use edge_cdn_store.Startup.Cells.{Libraries, Process, on_statics, disk_cache}

-- The services of the server, in the order in which they are added.
pub data Service : Type 0 where
  background_logger : BackgroundLogger → Service
  http_proxy : EdgeCdnProxy → Text → Text → Text → Text → Service
  persist_cache_on_shutdown : DiskCache → Service
  stop_inspector_on_shutdown : InspectorHandle → Service

-- `IN_ADDR_ANY` prints as 0.0.0.0.
abbrev pub listen_address : ℕ → Text
listen_address port = codes "0.0.0.0:" ++ decimal port

-- What pingora and the standard library answer: `Server::new`, with the command line parsed;
-- `add_tls`, which reads the certificate and the key; and the spawning of a thread.
pub record ServerCalls : Type 0 where
  pub new_server : Result ErrorType (Unit {0})
  pub add_tls : Text → Text → Text → Result ErrorType (Unit {0})
  pub spawn : Result IoError (Unit {0})

-- The inspector, as `main` starts it: where it listens, and the cache that it shows.
pub record StartedInspector : Type 0 where
  pub port : ℕ
  pub shown : DiskCache
  pub handle : InspectorHandle

pub record Started : Type 0 where
  pub services : List Service
  pub inspector : StartedInspector
  -- The lines that are logged.
  pub announced : List Text

module _ (X : Libraries) where
  expect_thread : Result IoError (Unit {0}) → InspectorHandle → M (Process X) InspectorHandle
  expect_thread (ok _) h p = (ok h, p)
  expect_thread (err e) h p = (err panicked, p)

  -- `start_disk_cache_inspector`: the channel, the thread, and the handle of the two.
  unfoldable pub start_disk_cache_inspector :
      Result IoError (Unit {0}) → ℕ → DiskCache → M (Process X) StartedInspector
  unfolding expect_thread
  start_disk_cache_inspector spawned port cache = do
    handle ← expect_thread spawned new_handle
    pure (record { port = port; shown = cache; handle = handle })

  -- The second half of `main`, after the listeners were added: the services that share the cache.
  unfoldable pub launch :
      Result IoError (Unit {0})
      → Environment
      → ℕ
      → BackgroundLogger
      → Service
      → Text
      → Text
      → M (Process X) Started
  unfolding start_disk_cache_inspector
  launch spawned env now logger proxy tcp tls = do
    cache ← disk_cache X env now
    shown ← disk_cache X env now
    inspector ← start_disk_cache_inspector spawned 8080 shown
    max_bytes ← on_statics X (eviction_manager_cfg env)
    pure (record {
      services =
          background_logger logger
          ∷ proxy
          ∷ persist_cache_on_shutdown cache
          ∷ stop_inspector_on_shutdown inspector.handle
          ∷ [];
      inspector = inspector;
      announced =
          (codes "Edge CDN proxy started: Cache size = " ++ (decimal max_bytes ++ codes " bytes"))
          ∷ (codes "    HTTP  proxy listening on " ++ (tcp ++ codes "..."))
          ∷ (codes "    HTTPS proxy listening on " ++ (tls ++ codes "..."))
          ∷ [];
    })

  -- `main` up to `run_forever`. `now` is the time of the clock.
  unfoldable pub main : ServerCalls → Environment → ℕ → M (Process X) Started
  main calls env now = do
    raise calls.new_server
    app_log ← on_statics X (path_to_app_log env)
    let logger : BackgroundLogger = record {
      path = app_log;
      filter = some (codes "edge_cdn_store=debug,pingora=info");
    }
    let http_port = env_var_or_num parse_u16 env (codes "PROXY_HTTP_PORT") default_proxy_port_http
    let https_port =
        env_var_or_num parse_u16 env (codes "PROXY_HTTPS_PORT") default_proxy_port_https
    let tcp = listen_address http_port
    let tls = listen_address https_port
    keys ← on_statics X (server_keys_dir env)
    keys' ← on_statics X (server_keys_dir env)
    let crt = keys ++ codes "/server.crt"
    let pem = keys' ++ codes "/server.pem"
    raise (calls.add_tls tls crt pem)
    launch calls.spawn env now logger (http_proxy (new_proxy http_port https_port) tcp tls crt pem)
        tcp tls
