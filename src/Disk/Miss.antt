-- ===== src/Disk/Miss.antt =====
-- Writing an entry (src/disk_cache/handle_miss.rs). The body goes to a temporary file, which
-- `finish` promotes; the metadata is written last.
pub mod Write
pub mod Finish
use edge_cdn_store.Common.{ℕ, ◌+◌, Bool, ◌++◌, none, Result, ok, err, length, if◌then◌else◌}
use edge_cdn_store.Common.Text.{Text, codes, decimal}
use edge_cdn_store.Common.State.{M, pure, ◌>>=◌, ◌>>◌, trace_fn_exit_with_err}
use edge_cdn_store.Disk.Files.{Bytes, FilePath, join, FileSystem, IoError}
use edge_cdn_store.Disk.World.{World, CacheMetrics, inc, inc_by, io, count}

pub record DiskMissHandler : Type 0 where
  pub tmp_path : FilePath
  pub tmp_bytes_written : ℕ
  pub dir : FilePath
  pub body_path : FilePath
  pub meta_path : FilePath
  pub hdr_path : FilePath
  pub meta_internal : Bytes
  pub meta_header : Bytes

-- The process id and the clock, at the moment when a temporary file is named.
pub record Stamp : Type 0 where
  pub pid : ℕ
  pub nanos : ℕ

unfoldable pub tmp_name : Text → Stamp → Text
tmp_name hint t = hint ++ (codes ".tmp-" ++ (decimal t.pid ++ (codes "-" ++ decimal t.nanos)))

-- `MissFinishType::Created`
pub data MissFinishType : Type 0 where
  created : ℕ → MissFinishType

-- An I/O error that is logged and returned as an internal error.
abbrev pub explain : {S A : Type 0} → Result IoError A → M S A
explain (ok a) s = (ok a, s)
explain (err e) s = (trace_fn_exit_with_err none, s)

module _ (F : FileSystem) where
  unfoldable pub create_tmp : FilePath → Text → Stamp → M (World F) FilePath
  create_tmp path_dir hint t = do
    let tmp_path = join path_dir (tmp_name hint t)
    _ ← io (F.create_dir_all path_dir)
    made ← io (F.create tmp_path)
    explain made
    pure tmp_path

  unfoldable pub write_body : Bytes → Bool → DiskMissHandler → M (World F) DiskMissHandler
  write_body bytes is_eof h = do
    opened ← io (F.open_append h.tmp_path)
    explain opened
    written ← io (F.append_all h.tmp_path bytes)
    explain written
    _ ← if is_eof then io (F.flush h.tmp_path) else pure (ok tt)
    pure (record h { tmp_bytes_written = h.tmp_bytes_written + length bytes })

  -- The branch of `finish` for a rename that failed.
  unfoldable pub transfer : DiskMissHandler → Result IoError (Unit {0}) → M (World F) (Unit {0})
  transfer h (ok _) = pure tt
  transfer h (err _) = do
    source ← io (F.open_file h.tmp_path)
    _ ← explain source
    target ← io (F.create h.body_path)
    explain target
    copied ← io (F.copy h.tmp_path h.body_path)
    explain copied
    _ ← io (F.remove_file h.tmp_path)
    pure tt

  unfoldable pub commit : DiskMissHandler → M (World F) MissFinishType
  commit h = do
    meta_written ← io (F.write h.meta_path h.meta_internal)
    explain meta_written
    hdr_written ← io (F.write h.hdr_path h.meta_header)
    explain hdr_written
    count (λ (m : CacheMetrics). record m {
      inserts = inc m.inserts;
      size_bytes = inc_by h.tmp_bytes_written m.size_bytes;
    })
    pure (created h.tmp_bytes_written)

  -- `Drop for DiskMissHandler`
  unfoldable pub drop_handler : DiskMissHandler → World F → World F
  drop_handler h w = record w { fs = (F.remove_file h.tmp_path w.fs).1 }

  unfoldable pub finish_steps : DiskMissHandler → M (World F) MissFinishType
  finish_steps h = do
    _ ← io (F.create_dir_all h.dir)
    renamed ← io (F.rename h.tmp_path h.body_path)
    transfer h renamed
    commit h

  -- `finish` consumes the handler, which is dropped on every way out.
  unfoldable pub finish : DiskMissHandler → M (World F) MissFinishType
  finish h w = ((finish_steps h w).0, drop_handler h (finish_steps h w).1)
