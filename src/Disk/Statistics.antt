-- ===== src/Disk/Statistics.antt =====
-- The statistics that survive a restart (src/disk_cache/cache_statistics.rs), and `DiskCache::new`
-- (src/disk_cache/mod.rs), which reads them.
pub mod ColdStart
pub mod Restart
use edge_cdn_store.Common.{ℕ, ◌-◌, Option, none, some, Result, ok, err, ltb, if◌then◌else◌}
use edge_cdn_store.Common.Text.{codes}
use edge_cdn_store.Common.State.{M, pure, ◌>>=◌, ◌>>◌, panicked}
use edge_cdn_store.Disk.Files.{Bytes, FilePath, join, FileSystem, IoError, Io}
use edge_cdn_store.Disk.World.{World, CacheMetrics, new_metrics, io}
use edge_cdn_store.Disk.Paths.{DiskCache}

pub record CacheStatistics : Type 0 where
  pub root : FilePath
  pub start_time : ℕ
  pub uptime : ℕ
  pub size_bytes_current : ℕ
  pub size_bytes_max : ℕ

-- What the code uses of serde_json for these statistics: a text, if they can be serialized, and
-- a reader of a file that is open.
pub record Json (F : FileSystem) : Type 0 where
  pub to_string_pretty : CacheStatistics → Option Bytes
  pub from_reader : F.Handle → Io F.State CacheStatistics

-- `path.push(CACHE_STATE_FILENAME)`
abbrev pub state_path : FilePath → FilePath
state_path root = join root (codes "_cache_state.json")

-- `start_time.elapsed().unwrap()`, which panics if the clock was put back.
unfoldable pub elapsed {ℓ} : {S : Type ℓ} → ℕ → ℕ → M S ℕ
elapsed start_time now w =
    if ltb now start_time then (err panicked, w) else (ok (now - start_time), w)

module _ (F : FileSystem) (J : Json F) where
  -- Also what the inspector shows. The gauge is cast from `i64` to `u64`.
  unfoldable pub statistics_of : DiskCache → ℕ → ℕ → M (World F) CacheStatistics
  unfolding elapsed
  statistics_of cache max_bytes now = do
    uptime ← elapsed cache.start_time now
    (λ w. (
      ok (record {
        root = cache.root;
        start_time = cache.start_time;
        uptime = uptime;
        size_bytes_current = w.metrics.size_bytes;
        size_bytes_max = max_bytes;
      }),
      w,
    ))

  write_state : FilePath → Option Bytes → M (World F) (Unit {0})
  write_state path none = pure tt
  write_state path (some json) = do _ ← io (F.write path json); pure tt

  -- `PersistCacheOnShutdown::start`, once the shutdown was signalled.
  unfoldable pub persist : DiskCache → ℕ → ℕ → M (World F) (Unit {0})
  unfolding write_state
  persist cache max_bytes now = do
    cs ← statistics_of cache max_bytes now
    write_state (state_path cache.root) (J.to_string_pretty cs)

  read_state : Result IoError F.Handle → Io F.State CacheStatistics
  read_state (ok file) s = J.from_reader file s
  read_state (err e) s = (err e, s)

  unfoldable pub fetch_cache_state : FilePath → Io F.State CacheStatistics
  unfolding read_state
  fetch_cache_state root s = let (file, s') = F.open_file (state_path root) s in read_state file s'

  abbrev pub prev_size : Result IoError CacheStatistics → ℕ
  prev_size (ok stats) = stats.size_bytes_current
  prev_size (err _) = 0

  -- `DiskCache::new`, with the metrics that it makes. A warning that the configured size has shrunk
  -- below the stored one has no other effect.
  unfoldable pub new_cache : FilePath → ℕ → F.State → DiskCache × World F
  new_cache root now s =
      let (stats, s') = fetch_cache_state root s in
      (
        record { root = root; start_time = now; uptime = 0 },
        record { fs = s'; metrics = new_metrics (prev_size stats) },
      )
