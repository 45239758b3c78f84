-- ===== src/Disk/Overlap.antt =====
-- `finish` of src/disk_cache/handle_miss.rs beside other tasks: whenever it awaits a call of the
-- file system, the other tasks may run first.
pub mod Published
pub mod Mixed
mod Tests
use edge_cdn_store.Common.{ℕ, none, Result, ok, err}
use edge_cdn_store.Common.State.{M, pure, ◌>>=◌, ◌>>◌}
use edge_cdn_store.Disk.Files.{FileSystem, Io, IoError}
use edge_cdn_store.Disk.World.{World, CacheMetrics, inc, inc_by, io, count}
use edge_cdn_store.Disk.Miss.{DiskMissHandler, MissFinishType, created, explain, drop_handler}

module _ (F : FileSystem) where
  -- What the other tasks do to the files and the metrics, by the await at which they run.
  abbrev pub Others : Type 0
  Others = ℕ → World F → World F

  module _ (others : Others) where
    -- The other tasks run at an await.
    unfoldable pub meanwhile : ℕ → M (World F) (Unit {0})
    meanwhile i w = (ok tt, others i w)

    unfoldable pub transfer_among :
        DiskMissHandler → Result IoError (Unit {0}) → M (World F) (Unit {0})
    unfolding meanwhile
    transfer_among h (ok _) = pure tt
    transfer_among h (err _) = do
      meanwhile 2
      source ← io (F.open_file h.tmp_path)
      _ ← explain source
      meanwhile 3
      target ← io (F.create h.body_path)
      explain target
      meanwhile 4
      copied ← io (F.copy h.tmp_path h.body_path)
      explain copied
      meanwhile 5
      _ ← io (F.remove_file h.tmp_path)
      pure tt

    -- The body is put in its place.
    unfoldable pub promote_among : DiskMissHandler → M (World F) (Unit {0})
    unfolding meanwhile
    promote_among h = do
      meanwhile 0
      _ ← io (F.create_dir_all h.dir)
      meanwhile 1
      renamed ← io (F.rename h.tmp_path h.body_path)
      transfer_among h renamed

    -- The metadata is written, and the insertion counted.
    unfoldable pub commit_among : DiskMissHandler → M (World F) MissFinishType
    unfolding meanwhile
    commit_among h = do
      meanwhile 6
      meta_written ← io (F.write h.meta_path h.meta_internal)
      explain meta_written
      meanwhile 7
      hdr_written ← io (F.write h.hdr_path h.meta_header)
      explain hdr_written
      meanwhile 8
      count (λ (m : CacheMetrics). record m {
        inserts = inc m.inserts;
        size_bytes = inc_by h.tmp_bytes_written m.size_bytes;
      })
      pure (created h.tmp_bytes_written)

    -- `finish`, and the drop of its handler on every way out.
    unfoldable pub finish_among : DiskMissHandler → M (World F) MissFinishType
    finish_among h w =
        let (r, w') = (promote_among h >> commit_among h) w in (r, drop_handler F h w')
