-- ===== src/Disk/Store/Torn.antt =====
-- A response that replaces another one, where `finish` fails between the body and the metadata.
use edge_cdn_store.Common.{subst, length, Result, ◌≡◌, ◌≢◌, sym, ap, ◌∙◌, true, err, is_ok, arith}
use edge_cdn_store.Common.State.{error, internal_error}
use edge_cdn_store.Disk.Files.{Bytes, FilePath, FileSystem, IoError, IsLawful}
use edge_cdn_store.Disk.World.{World, CacheTypes}
use edge_cdn_store.Disk.Paths.{DiskCache}
use edge_cdn_store.Disk.Miss.{
  DiskMissHandler, Stamp, transfer, commit, drop_handler, finish_steps, finish,
}
use edge_cdn_store.Disk.Miss.Write.{Pending}
use edge_cdn_store.Disk.Miss.Finish.{AreSeparate}
use edge_cdn_store.Disk.Store.Handler.{handler_for, handler_for-AreSeparate}
use edge_cdn_store.Disk.Store.Insert.{Stored}

module _ (F : FileSystem) where
  -- The renaming of the temporary file that `finish` makes, and then its first write.
  abbrev pub body_moved : DiskMissHandler → World F → Result IoError (Unit {0}) × F.State
  body_moved h w = F.rename h.tmp_path h.body_path (F.create_dir_all h.dir w.fs).1

  abbrev pub meta_written : DiskMissHandler → World F → Result IoError (Unit {0}) × F.State
  meta_written h w = F.write h.meta_path h.meta_internal (body_moved h w).1

module _ (F : FileSystem) (L : IsLawful F) (P : CacheTypes) (c : DiskCache) where
  finish_refused :
      (h : DiskMissHandler) (w : World F) (x : IoError)
      → is_ok (body_moved F h w).0 ≡ true
      → (meta_written F h w).0 ≡ err x
      → ((finish F h w).0 ≡ err (error internal_error))
        × ((finish F h w).1.fs ≡ (F.remove_file h.tmp_path (meta_written F h w).1).1)
  unfolding finish finish_steps transfer commit drop_handler
  finish_refused h w x renamed refused = ground arith

  -- An entry is stored, and a response for the same hash is finished. The body is renamed into its
  -- place, and then the metadata file cannot be written and stays as it was. The call fails, and
  -- what is stored is the new body with the old metadata.
  pub Stored-finish_torn :
      (h : DiskMissHandler) (hash : Bytes) (t : Stamp) (a b a' b' body body' : Bytes) (w : World F)
      (x : IoError)
      → h ≡ handler_for c hash t a' b' (length body')
      → Stored F P c hash body a b w
      → Pending F h body' w
      → is_ok (body_moved F h w).0 ≡ true
      → (meta_written F h w).0 ≡ err x
      → F.file (meta_written F h w).1 h.meta_path ≡ F.file (body_moved F h w).1 h.meta_path
      → ((finish F h w).0 ≡ err (error internal_error))
        × Stored F P c hash body' a b (finish F h w).1
  Stored-finish_torn h hash t a b a' b' body body' w x shape stored pending renamed refused kept =
      let sep =
        subst AreSeparate (sym shape) (handler_for-AreSeparate c hash t a' b' (length body')) in
      let (failed, left) = finish_refused h w x renamed refused in
      let made = (F.create_dir_all h.dir w.fs).1 in
      let old = λ (p : FilePath) (n : p ≢ h.tmp_path) (n' : p ≢ h.body_path).
        L.file-rename_ne h.tmp_path h.body_path p made n n' ∙ L.file-create_dir_all h.dir p w.fs in
      let end = λ (p : FilePath) (n : p ≢ h.tmp_path).
        ap (λ v. F.file v p) left ∙ L.file-remove_file_ne h.tmp_path p (meta_written F h w).1 n in
      let at = λ (path : DiskMissHandler → FilePath).
        ap (λ g. F.file (finish F h w).1.fs (path g)) (sym shape) in
      let before = λ (path : DiskMissHandler → FilePath). ap (λ g. F.file w.fs (path g)) shape in
      (
        failed,
        record {
          body_stored =
              at (λ g. g.body_path)
              ∙ end h.body_path (λ q. sep.tmp_body (sym q))
              ∙ L.file-write_ne h.meta_path h.body_path h.meta_internal (body_moved F h w).1
                  sep.body_meta
              ∙ L.rename_ok h.tmp_path h.body_path made renamed
              ∙ L.file-create_dir_all h.dir h.tmp_path w.fs
              ∙ pending.stored;
          meta_stored =
              at (λ g. g.meta_path)
              ∙ end h.meta_path (λ q. sep.tmp_meta (sym q))
              ∙ kept
              ∙ old h.meta_path (λ q. sep.tmp_meta (sym q)) (λ q. sep.body_meta (sym q))
              ∙ before (λ g. g.meta_path)
              ∙ stored.meta_stored;
          hdr_stored =
              at (λ g. g.hdr_path)
              ∙ end h.hdr_path (λ q. sep.tmp_hdr (sym q))
              ∙ L.file-write_ne h.meta_path h.hdr_path h.meta_internal (body_moved F h w).1
                  (λ q. sep.meta_hdr (sym q))
              ∙ old h.hdr_path (λ q. sep.tmp_hdr (sym q)) (λ q. sep.body_hdr (sym q))
              ∙ before (λ g. g.hdr_path)
              ∙ stored.hdr_stored;
        },
      )
