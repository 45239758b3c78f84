-- ===== src/Startup/Cells/First.antt =====
-- What each use of a cell does, by whether the cell is set.
use edge_cdn_store.Common.{ℕ, ◌≡◌, refl, true, none, some, ok, arith}
use edge_cdn_store.Utils.{Environment}
use edge_cdn_store.Disk.Registry.{IsLawfulRegistry, all_metrics}
use edge_cdn_store.Disk.Registry.Once.{are_free, registered_metrics_ok}
use edge_cdn_store.Disk.Paths.{DiskCache}
use edge_cdn_store.Disk.Statistics.{fetch_cache_state, prev_size}
use edge_cdn_store.Tiered.{primary_only}
use edge_cdn_store.Startup.{
  Statics, runtime_dir, cache_dir, server_keys_dir, path_to_app_log, path_to_panic_log,
  eviction_manager_cfg,
}
use edge_cdn_store.Startup.Cells.{
  Libraries, TieredStatic, Process, disk_cache, tiered_static, eviction_manager,
}

-- What the functions of the statics do to the limit.
pub paths_limit :
    (env : Environment) (st : Statics)
    → ((runtime_dir env st).1.max_bytes_cell ≡ st.max_bytes_cell)
      × ((cache_dir env st).1.max_bytes_cell ≡ st.max_bytes_cell)
      × ((server_keys_dir env st).1.max_bytes_cell ≡ st.max_bytes_cell)
      × ((path_to_app_log env st).1.max_bytes_cell ≡ st.max_bytes_cell)
      × ((path_to_panic_log env st).1.max_bytes_cell ≡ st.max_bytes_cell)
unfolding runtime_dir cache_dir server_keys_dir path_to_app_log path_to_panic_log
paths_limit env st = ground arith

pub cfg_limit :
    (env : Environment) (st : Statics)
    → (eviction_manager_cfg env st).1.max_bytes_cell ≡ some (eviction_manager_cfg env st).0
unfolding eviction_manager_cfg
cfg_limit env st = ground arith

pub cfg_set :
    (env : Environment) (st : Statics) (n : ℕ)
    → st.max_bytes_cell ≡ some n
    → eviction_manager_cfg env st ≡ (n, st)
unfolding eviction_manager_cfg
cfg_set env st n e = ground arith

-- The tiers over a cache.
abbrev pub tiers_of : DiskCache → TieredStatic
tiers_of c = record { primary = c; secondary = none; write_policy = primary_only }

module _ (X : Libraries) where
  -- The cache that is made at the first use, and the process then.
  abbrev pub made_now : Environment → ℕ → Process X → DiskCache
  made_now env now p = record {
    root = X.to_path (cache_dir env p.statics).0;
    start_time = now;
    uptime = 0;
  }

module _ (X : Libraries) (L : IsLawfulRegistry X.registry) where
  pub disk_cache_first :
      (env : Environment) (now : ℕ) (p : Process X)
      → p.cache_cell ≡ none
      → are_free X.registry all_metrics p.registry ≡ true
      → ((disk_cache X env now p).0 ≡ ok (made_now X env now p))
        × ((disk_cache X env now p).1.cache_cell ≡ some (made_now X env now p))
        × ((disk_cache X env now p).1.tiered_cell ≡ p.tiered_cell)
        × ((disk_cache X env now p).1.manager_cell ≡ p.manager_cell)
        × ((disk_cache X env now p).1.statics
            ≡ (eviction_manager_cfg env (cache_dir env p.statics).1).1)
  unfolding disk_cache
  disk_cache_first env now p e free =
      let root = X.to_path (cache_dir env p.statics).0 in
      let stats = (fetch_cache_state X.files X.json root p.fs).0 in
      let made =
        registered_metrics_ok X.registry L (prev_size X.files X.json stats) p.registry free in
      rw e (rw made (refl, refl, refl, refl, refl))

  pub disk_cache_set :
      (env : Environment) (now : ℕ) (p : Process X) (c : DiskCache)
      → p.cache_cell ≡ some c
      → disk_cache X env now p ≡ (ok c, p)
  unfolding disk_cache
  disk_cache_set env now p c e = rw e refl

  pub tiered_static_first :
      (env : Environment) (now : ℕ) (p : Process X) (c : DiskCache)
      → p.tiered_cell ≡ none
      → (disk_cache X env now p).0 ≡ ok c
      → tiered_static X env now p
        ≡ (ok (tiers_of c), record ((disk_cache X env now p).1) { tiered_cell = some (tiers_of c) })
  unfolding tiered_static
  tiered_static_first env now p c missing said = ground arith

  pub tiered_static_set :
      (env : Environment) (now : ℕ) (p : Process X) (t : TieredStatic)
      → p.tiered_cell ≡ some t
      → tiered_static X env now p ≡ (ok t, p)
  unfolding tiered_static
  tiered_static_set env now p t made = rw made refl

  pub eviction_manager_first :
      (env : Environment) (p : Process X)
      → p.manager_cell ≡ none
      → eviction_manager X env p ≡ (
        ok (X.new_manager (eviction_manager_cfg env p.statics).0),
        record p {
          statics = (eviction_manager_cfg env p.statics).1;
          manager_cell = some (X.new_manager (eviction_manager_cfg env p.statics).0);
        },
      )
  unfolding eviction_manager
  eviction_manager_first env p missing = ground arith

  pub eviction_manager_set :
      (env : Environment) (p : Process X) (m : X.Manager)
      → p.manager_cell ≡ some m
      → eviction_manager X env p ≡ (ok m, p)
  unfolding eviction_manager
  eviction_manager_set env p m made = rw made refl
