-- ===== src/Disk/Paths.antt =====
-- Where an entry is kept (src/disk_cache/mod.rs): `DiskCache` and `path_from_hash`.
pub mod Separate
pub mod Temporary
use edge_cdn_store.Common.{ℕ, Result, ok, err, length, take, drop, leb, if◌then◌else◌}
use edge_cdn_store.Common.Text.{codes}
use edge_cdn_store.Common.State.{Failure, panicked}
use edge_cdn_store.Disk.Files.{Bytes, FilePath, join}
use edge_cdn_store.Disk.World.{CacheTypes}

-- The metrics, which all handlers share, are in the world.
pub record DiskCache : Type 0 where
  pub root : FilePath
  pub start_time : ℕ
  pub uptime : ℕ

pub record EntryPaths : Type 0 where
  pub hash : Bytes
  pub dir : FilePath
  pub body : FilePath
  pub meta : FilePath
  pub hdr : FilePath

abbrev pub entry_dir : DiskCache → Bytes → FilePath
entry_dir c hash = join (join (join c.root (take 2 hash)) (take 2 (drop 2 hash))) hash

abbrev pub entry_paths : DiskCache → Bytes → EntryPaths
entry_paths c hash =
    let dir = entry_dir c hash in
    record {
      hash = hash;
      dir = dir;
      body = join dir (codes "body");
      meta = join dir (codes "meta");
      hdr = join dir (codes "hdr");
    }

-- The slices `hash[0..2]` and `hash[2..4]` panic on a shorter hash.
unfoldable pub path_from_hash : DiskCache → Bytes → Result Failure EntryPaths
path_from_hash c hash = if leb 4 (length hash) then ok (entry_paths c hash) else err panicked

module _ (P : CacheTypes) where
  unfoldable pub path_from_key : DiskCache → P.CacheKey → Result Failure EntryPaths
  path_from_key c key = path_from_hash c (P.combined key)

  unfoldable pub path_from_compact_key : DiskCache → P.CompactCacheKey → Result Failure EntryPaths
  path_from_compact_key c key = path_from_hash c (P.compact_combined key)
