-- ===== src/Startup/Cells.antt =====
-- The cells of the process that hold the cache, its tiers and the eviction manager
-- (src/disk_cache/mod.rs, src/tiered/mod.rs), beside those of src/statics.rs.
pub mod First
pub mod Shared
use edge_cdn_store.Common.{ℕ, Option, none, some, Result, ok, err}
use edge_cdn_store.Common.Text.{Text}
use edge_cdn_store.Common.State.{M, pure, ◌>>=◌, ◌>>◌, Failure}
use edge_cdn_store.Utils.{Environment}
use edge_cdn_store.Disk.Files.{FilePath, FileSystem, Io, IoError}
use edge_cdn_store.Disk.World.{CacheMetrics}
use edge_cdn_store.Disk.Registry.{Registry, registered_metrics}
use edge_cdn_store.Disk.Paths.{DiskCache}
use edge_cdn_store.Disk.Statistics.{CacheStatistics, Json, fetch_cache_state, prev_size}
use edge_cdn_store.Tiered.{WritePolicy, primary_only}
use edge_cdn_store.Startup.{Statics, cache_dir, eviction_manager_cfg}

-- What the process takes from outside: the file system, serde_json, the registry of prometheus,
-- `PathBuf::from`, and pingora's LruManager.
pub record Libraries : Type 1 where
  pub files : FileSystem
  pub json : Json files
  pub registry : Registry
  pub to_path : Text → FilePath
  pub Manager : Type 0
  pub new_manager : ℕ → Manager

-- `TieredStorage`, with references to caches.
pub record TieredStatic : Type 0 where
  pub primary : DiskCache
  pub secondary : Option DiskCache
  pub write_policy : WritePolicy

-- `TieredStorage::new`
abbrev pub new_tiered_storage : DiskCache → Option DiskCache → WritePolicy → TieredStatic
new_tiered_storage primary secondary write_policy = record {
  primary = primary;
  secondary = secondary;
  write_policy = write_policy;
}

module _ (X : Libraries) where
  -- The process. The metrics are those behind the reference that the cache holds.
  pub record Process : Type 0 where
    pub fs : X.files.State
    pub registry : X.registry.State
    pub statics : Statics
    pub metrics : Option CacheMetrics
    pub cache_cell : Option DiskCache
    pub tiered_cell : Option TieredStatic
    pub manager_cell : Option X.Manager

  abbrev pub on_statics : {A : Type 0} → (Statics → A × Statics) → M Process A
  on_statics f p = (ok (f p.statics).0, record p { statics = (f p.statics).1 })

  abbrev pub on_files : {A : Type 0} → Io X.files.State A → M Process (Result IoError A)
  on_files f p = (ok (f p.fs).0, record p { fs = (f p.fs).1 })

  abbrev pub on_registry : {A : Type 0} → M X.registry.State A → M Process A
  on_registry f p = ((f p.registry).0, record p { registry = (f p.registry).1 })

  -- `OnceLock::get_or_init`: a panic leaves the cell as it was.
  abbrev pub set_cell {ℓ} : {A : Type ℓ} → (A → Process → Process) → Result Failure A → M Process A
  set_cell set (ok a) p = (ok a, set a p)
  set_cell set (err e) p = (err e, p)

  abbrev pub get_or_make {ℓ} :
      {A : Type ℓ} → Option A → M Process A → (A → Process → Process) → M Process A
  get_or_make (some a) init set p = (ok a, p)
  get_or_make none init set p = set_cell set (init p).0 (init p).1

  -- `DiskCache::new`
  unfoldable pub new_disk_cache : FilePath → Environment → ℕ → M Process DiskCache
  new_disk_cache root env now = do
    stats ← on_files (fetch_cache_state X.files X.json root)
    -- The limit is compared with the stored size, for a warning.
    _ ← on_statics (eviction_manager_cfg env)
    metrics ← on_registry (registered_metrics X.registry (prev_size X.files X.json stats))
    (λ p. (
      ok (record { root = root; start_time = now; uptime = 0 }),
      record p { metrics = some metrics },
    ))

  unfoldable pub disk_cache : Environment → ℕ → M Process DiskCache
  unfolding new_disk_cache
  disk_cache env now p =
      get_or_make p.cache_cell
        (do root ← on_statics (cache_dir env); new_disk_cache (X.to_path root) env now)
        (λ c q. record q { cache_cell = some c }) p

  -- `tiered_cache`
  unfoldable pub tiered_static : Environment → ℕ → M Process TieredStatic
  tiered_static env now p =
      get_or_make p.tiered_cell
        (do primary ← disk_cache env now; pure (new_tiered_storage primary none primary_only))
        (λ t q. record q { tiered_cell = some t }) p

  unfoldable pub eviction_manager : Environment → M Process X.Manager
  eviction_manager env p =
      get_or_make p.manager_cell
        (do max_bytes ← on_statics (eviction_manager_cfg env); pure (X.new_manager max_bytes))
        (λ m q. record q { manager_cell = some m }) p
