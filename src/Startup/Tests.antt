-- ===== src/Startup/Tests.antt =====
-- Starting with an environment that sets one port, and the theorems at this environment.
use edge_cdn_store.Common.{
  ℕ, ◌≤◌, ◌≡◌, refl, true, false, ◌⊎◌, [], ◌∷◌, ◌++◌, some, none, Result, ok, err, if◌then◌else◌,
}
use edge_cdn_store.Common.Text.{codes, decimal, text_eq}
use edge_cdn_store.Utils.{Environment, env_var_or_str, env_var_or_num}
use edge_cdn_store.Proxy.{EdgeCdnProxy, Session, request_cache_filter}
use edge_cdn_store.Proxy.Key.{with_host}
use edge_cdn_store.Disk.Files.{other}
use edge_cdn_store.Disk.Files.Memory.{memory, path_eq}
use edge_cdn_store.Disk.Paths.{DiskCache}
use edge_cdn_store.Disk.Registry.{all_metrics, register_all, registered_metrics}
use edge_cdn_store.Disk.Registry.Once.{are_free}
use edge_cdn_store.Disk.Samples.{empty, cache, names, names-IsLawful}
use edge_cdn_store.Disk.Statistics.{fetch_cache_state}
use edge_cdn_store.Inspector.Stop.{new_handle}
use edge_cdn_store.Startup.{
  unset, runtime_dir, cache_dir, server_keys_dir, path_to_app_log, path_to_panic_log,
  eviction_manager_cfg,
}
use edge_cdn_store.Startup.Paths
use edge_cdn_store.Startup.Paths.{use_cache, runtime_dir_shared}
use edge_cdn_store.Startup.Cells.{Libraries, Process, disk_cache, tiered_static, eviction_manager}
use edge_cdn_store.Startup.Cells.First.{tiers_of}
use edge_cdn_store.Startup.Cells.Shared.{Reach, fresh, cells_shared}
use edge_cdn_store.Startup.Main.{ServerCalls, Started, launch, main}
use edge_cdn_store.Startup.Main.Outcome.{Refused, Unthreaded, Running, main_outcome}
use edge_cdn_store.Startup.Listen.{ListensAt, main-request_cache_filter}

abbrev env : Environment
env name = if text_eq name (codes "PROXY_HTTP_PORT") then some (codes "8000") else none

abbrev moved : Environment
moved name = some (codes "/srv")

abbrev calls : ServerCalls
calls = record { new_server = ok tt; add_tls = λ address crt key. ok tt; spawn = ok tt }

-- A process on an empty disk, with statistics that can be neither read nor written.
abbrev libraries : Libraries
libraries = record {
  files = memory;
  json = record { to_string_pretty = λ cs. none; from_reader = λ h s. (err other, s) };
  registry = names;
  to_path = λ s. s ∷ [];
  Manager = ℕ;
  new_manager = λ n. n;
}

abbrev process : Process libraries
process = record {
  fs = empty.fs;
  registry = [];
  statics = unset;
  metrics = none;
  cache_cell = none;
  tiered_cell = none;
  manager_cell = none;
}

free_now : are_free names all_metrics [] ≡ true
unfolding are_free
free_now = refl

reached : Reach libraries process
reached = fresh empty.fs [] free_now

abbrev request : Session
request = record {
  header = λ name. none;
  server_port = none;
  path_and_query = none;
  upstream_used = false;
}

default_size : (eviction_manager_cfg env unset).0 ≡ 2147483648
unfolding eviction_manager_cfg env_var_or_num text_eq
default_size = refl

given_dir : (cache_dir moved unset).0 ≡ codes "/srv/cache"
unfolding cache_dir runtime_dir env_var_or_str
given_dir = refl

runtime_dir_shared_example :
    let st = (cache_dir env unset).1 in
    let dir = (runtime_dir moved st).0 in
    let st' = (runtime_dir moved st).1 in
    ((cache_dir moved st').0 ≡ dir ++ codes "/cache")
    × ((server_keys_dir moved st').0 ≡ dir ++ codes "/keys")
    × ((path_to_app_log moved st').0 ≡ dir ++ codes "/app.log")
    × ((path_to_panic_log moved st').0 ≡ dir ++ codes "/panic.log")
runtime_dir_shared_example =
    runtime_dir_shared moved moved (Paths.later Paths.fresh (use_cache env))

cells_shared_example :
    (c : DiskCache) × ((disk_cache libraries env 5 process).0 ≡ ok c)
    × (let p' = (disk_cache libraries env 5 process).1 in
        (disk_cache libraries moved 9 p' ≡ (ok c, p'))
        × ((tiered_static libraries moved 9 p').0 ≡ ok (tiers_of c)))
    × (n : ℕ) × ((eviction_manager libraries env process).0 ≡ ok n)
    × ((eviction_manager_cfg moved (eviction_manager libraries env process).1.statics).0 ≡ n)
cells_shared_example = cells_shared libraries names-IsLawful env moved 5 9 reached

main_outcome_example :
    Refused libraries names-IsLawful calls env 5 process (main libraries calls env 5 process)
    ⊎ (Unthreaded libraries names-IsLawful calls env 5 (main libraries calls env 5 process)
        ⊎ Running libraries names-IsLawful calls env 5 process (main libraries calls env 5 process))
main_outcome_example = main_outcome libraries names-IsLawful calls env 5 reached

abbrev first {ℓ κ} : {E : Type ℓ} {A : Type κ} → A → Result E A → A
first a (ok b) = b
first a _ = a

abbrev none_started : Started
none_started = record {
  services = [];
  inspector = record { port = 0; shown = cache; handle = new_handle };
  announced = [];
}

abbrev started : Started
started = first none_started (main libraries calls env 5 process).0

started_now : (main libraries calls env 5 process).0 ≡ ok started
unfolding main launch disk_cache registered_metrics register_all fetch_cache_state runtime_dir
    cache_dir server_keys_dir path_to_app_log eviction_manager_cfg env_var_or_num env_var_or_str
    text_eq path_eq
started_now = refl

main-request_cache_filter_example :
    (p : EdgeCdnProxy) × (n : ℕ) × (n' : ℕ) × ListensAt started p n n'
    × (n ≤ 65535)
    × (n' ≤ 65535)
    × (request_cache_filter p (with_host request (codes "127.0.0.1:" ++ decimal n)) ≡ false)
    × (request_cache_filter p (with_host request (codes "127.0.0.1:" ++ decimal n')) ≡ false)
main-request_cache_filter_example =
    main-request_cache_filter libraries names-IsLawful calls env 5 started request reached
      started_now
