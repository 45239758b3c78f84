-- ===== src/Disk/Store.antt =====
-- The storage interface of the disk cache (src/disk_cache/mod.rs, `impl Storage for DiskCache`).
pub mod Entries
pub mod Gone
pub mod Handler
pub mod InFlight
pub mod Insert
pub mod Lookup
pub mod Purge
pub mod RoundTrip
pub mod Torn
pub mod Update
use edge_cdn_store.Common.{ℕ, Bool, true, false, Option, none, some, Result, ok, err}
use edge_cdn_store.Common.State.{M, pure, ◌>>=◌, ◌>>◌, Failure, error, ErrorType}
use edge_cdn_store.Disk.Files.{Bytes, FileSystem, IoError}
use edge_cdn_store.Disk.World.{World, CacheMetrics, CacheTypes, inc, inc_by, gauge_sub, io, count}
use edge_cdn_store.Disk.Paths.{DiskCache, EntryPaths, path_from_key, path_from_compact_key}
use edge_cdn_store.Disk.Miss.{DiskMissHandler, Stamp, create_tmp, explain}
use edge_cdn_store.Disk.Hit.{DiskHitHandler}

-- consts.rs
abbrev pub default_read_buffer_size : ℕ
default_read_buffer_size = 262144

pub data PurgeType : Type 0 where
  eviction invalidation : PurgeType

abbrev pub lift {ℓ κ} : {S : Type ℓ} {A : Type κ} → Result Failure A → M S A
lift r s = (r, s)

-- `?` on an error that pingora made.
abbrev pub raise {ℓ κ} : {S : Type ℓ} {A : Type κ} → Result ErrorType A → M S A
raise (ok a) s = (ok a, s)
raise (err e) s = (err (error e), s)

module _ (F : FileSystem) (P : CacheTypes) (c : DiskCache) where
  abbrev pub Hit : Type 0
  Hit = P.CacheMeta × DiskHitHandler F

  -- The arm of `lookup` for three files that could be read or opened, and the other arm.
  serve :
      Result IoError Bytes
      → Result IoError Bytes
      → Result IoError F.Handle
      → M (World F) (Option Hit)
  serve (ok meta_bin) (ok hdr_bin) (ok file) = do
    len ← io (F.file_len file)
    total_len ← explain len
    count (λ (m : CacheMetrics). record m { lookup_hits = inc m.lookup_hits })
    meta ← raise (P.deserialize meta_bin hdr_bin)
    pure (
        some (
          meta,
          record {
            file = file;
            total_len = total_len;
            range_start = 0;
            range_end = total_len;
            pos = 0;
            pending_seek = false;
            chunk = default_read_buffer_size;
          },
        ))
  serve _ _ _ = do count (λ (m : CacheMetrics). record m { misses = inc m.misses }); pure none

  unfoldable pub lookup : P.CacheKey → M (World F) (Option Hit)
  unfolding serve
  lookup key = do
    made ← io (F.create_dir_all c.root)
    explain made
    paths ← lift (path_from_key P c key)
    meta_res ← io (F.read paths.meta)
    hdr_res ← io (F.read paths.hdr)
    file_res ← io (F.open_file paths.body)
    serve meta_res hdr_res file_res

  unfoldable pub get_miss_handler : P.CacheKey → P.CacheMeta → Stamp → M (World F) DiskMissHandler
  get_miss_handler key meta t = do
    count (λ (m : CacheMetrics). record m { misses = inc m.misses })
    paths ← lift (path_from_key P c key)
    parts ← raise (P.serialize meta)
    _ ← io (F.create_dir_all paths.dir)
    tmp_path ← create_tmp F paths.dir paths.hash t
    pure (record {
      tmp_path = tmp_path;
      tmp_bytes_written = 0;
      dir = paths.dir;
      body_path = paths.body;
      meta_path = paths.meta;
      hdr_path = paths.hdr;
      meta_internal = parts.0;
      meta_header = parts.1;
    })

  abbrev ok_or_zero : Result IoError ℕ → ℕ
  ok_or_zero (ok n) = n
  ok_or_zero (err _) = 0

  purged : ℕ → Result IoError (Unit {0}) → M (World F) Bool
  purged body_bytes (ok _) = do
    count (λ (m : CacheMetrics). record m {
      evictions = inc m.evictions;
      evicted_bytes = inc_by body_bytes m.evicted_bytes;
      size_bytes = gauge_sub body_bytes m.size_bytes;
    })
    pure true
  purged body_bytes (err _) = pure false

  unfoldable pub purge : P.CompactCacheKey → PurgeType → M (World F) Bool
  unfolding purged
  purge key purge_type = do
    count (λ (m : CacheMetrics). record m { purge_attempts = inc m.purge_attempts })
    paths ← lift (path_from_compact_key P c key)
    len ← io (F.metadata_len paths.body)
    removed ← io (F.remove_file paths.body)
    existed ← purged (ok_or_zero len) removed
    _ ← io (F.remove_file paths.meta)
    _ ← io (F.remove_file paths.hdr)
    _ ← io (F.remove_dir paths.dir)
    pure existed

  rewrite_meta : P.CacheMeta → EntryPaths → Bool → M (World F) Bool
  rewrite_meta meta paths false = pure false
  rewrite_meta meta paths true = do
    parts ← raise (P.serialize meta)
    meta_written ← io (F.write paths.meta parts.0)
    explain meta_written
    hdr_written ← io (F.write paths.hdr parts.1)
    explain hdr_written
    pure true

  unfoldable pub update_meta : P.CacheKey → P.CacheMeta → M (World F) Bool
  unfolding rewrite_meta
  update_meta key meta = do
    paths ← lift (path_from_key P c key)
    exists ← (λ w. (ok (F.exists paths.body w.fs), w))
    rewrite_meta meta paths exists
