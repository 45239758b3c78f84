-- ===== src/Disk/Miss/Finish.antt =====
-- Promoting the temporary file: `finish` and the drop of the handler.
use edge_cdn_store.Common.{
  ◌≡◌, ◌≢◌, refl, sym, some, Result, ok, err, length, arith, Result-cases, inl, inr,
}
use edge_cdn_store.Common.State.{Failure, error, internal_error}
use edge_cdn_store.Disk.Files.{Bytes, FilePath, FileSystem, IoError, IsLawful}
use edge_cdn_store.Disk.World.{World, inc, inc_by}
use edge_cdn_store.Disk.Miss.{
  DiskMissHandler, MissFinishType, created, transfer, commit, drop_handler, finish_steps, finish,
}
use edge_cdn_store.Disk.Miss.Write.{Pending}

-- The four files of a handler are different files.
pub record AreSeparate (h : DiskMissHandler) : Type 0 where
  pub tmp_body : h.tmp_path ≢ h.body_path
  pub tmp_meta : h.tmp_path ≢ h.meta_path
  pub tmp_hdr : h.tmp_path ≢ h.hdr_path
  pub body_meta : h.body_path ≢ h.meta_path
  pub body_hdr : h.body_path ≢ h.hdr_path
  pub meta_hdr : h.meta_path ≢ h.hdr_path

module _ (F : FileSystem) (L : IsLawful F) (h : DiskMissHandler) (sep : AreSeparate h) where
  abbrev promoted : World F → World F
  promoted w = record w { fs = (F.rename h.tmp_path h.body_path w.fs).1 }

  abbrev rename_result : World F → Result IoError (Unit {0})
  rename_result w = (F.rename h.tmp_path h.body_path w.fs).0

  -- The transfer by hand copies the temporary file.
  transfer_copies :
      (bytes : Bytes) (x : IoError) (w : World F)
      → F.file w.fs h.tmp_path ≡ some bytes
      → (transfer F h (err x) w).0 ≡ ok tt
      → F.file (transfer F h (err x) w).1.fs h.body_path ≡ some bytes
  unfolding transfer
  transfer_copies bytes x w p e =
      let s2 = (F.open_file h.tmp_path w.fs).1 in
      let s3 = (F.create h.body_path s2).1 in
      let s4 = (F.copy h.tmp_path h.body_path s3).1 in
      ground (
        arith,
        L.file-open_file h.tmp_path h.tmp_path w.fs,
        L.create_ok h.body_path s2,
        L.file-create_ne h.body_path h.tmp_path s2 sep.tmp_body,
        L.copy_ok h.tmp_path h.body_path s3,
        L.file-remove_file_ne h.tmp_path h.body_path s4 (λ q. sep.tmp_body (sym q)),
      )

  transfer_ok :
      (bytes : Bytes) (w : World F)
      → F.file w.fs h.tmp_path ≡ some bytes
      → (transfer F h (rename_result w) (promoted w)).0 ≡ ok tt
      → F.file (transfer F h (rename_result w) (promoted w)).1.fs h.body_path ≡ some bytes
  transfer_ok bytes w p e = elim (Result-cases (rename_result w)) [
    | inl (_, renamed) ↦
        rw renamed (unfold transfer in ground (arith, L.rename_ok h.tmp_path h.body_path w.fs))
    | inr (x, failed) ↦ rw failed (
        transfer_copies bytes x (promoted w)
          (ground (arith, L.rename_err h.tmp_path h.body_path h.tmp_path w.fs x failed))
          (rw failed at e))
  ]

  transfer_metrics :
      (r : Result IoError (Unit {0})) (w : World F) → (transfer F h r w).1.metrics ≡ w.metrics
  unfolding transfer
  transfer_metrics (ok _) w = refl
  transfer_metrics (err x) w = ground arith

  transfer_frame :
      (r : Result IoError (Unit {0})) (w : World F) (p : FilePath)
      → p ≢ h.tmp_path
      → p ≢ h.body_path
      → F.file (transfer F h r w).1.fs p ≡ F.file w.fs p
  unfolding transfer
  transfer_frame (ok _) w p n n' = refl
  transfer_frame (err x) w p n n' =
      grind (arith, L.file-open_file, L.file-create_ne, L.file-copy_ne, L.file-remove_file_ne)

  commit_ok :
      (w : World F) (r : MissFinishType)
      → (commit F h w).0 ≡ ok r
      → (r ≡ created h.tmp_bytes_written)
        × (F.file (commit F h w).1.fs h.meta_path ≡ some h.meta_internal)
        × (F.file (commit F h w).1.fs h.hdr_path ≡ some h.meta_header)
        × (F.file (commit F h w).1.fs h.body_path ≡ F.file w.fs h.body_path)
        × ((commit F h w).1.metrics ≡ record (w.metrics) {
          inserts = inc w.metrics.inserts;
          size_bytes = inc_by h.tmp_bytes_written w.metrics.size_bytes;
        })
  unfolding commit
  commit_ok w r e =
      grind (arith, L.write_ok, L.file-write_ne, sep.body_meta, sep.body_hdr, sep.meta_hdr)

  commit_frame :
      (w : World F) (p : FilePath)
      → p ≢ h.meta_path
      → p ≢ h.hdr_path
      → F.file (commit F h w).1.fs p ≡ F.file w.fs p
  unfolding commit
  commit_frame w p n n' = grind (arith, L.file-write_ne)

  -- A `finish` that returns has promoted the body, stored the metadata beside it, and counted
  -- one insertion of the bytes written.
  pub finish_ok :
      (bytes : Bytes) (w : World F) (r : MissFinishType)
      → Pending F h bytes w
      → (finish F h w).0 ≡ ok r
      → (r ≡ created (length bytes))
        × (F.file (finish F h w).1.fs h.body_path ≡ some bytes)
        × (F.file (finish F h w).1.fs h.meta_path ≡ some h.meta_internal)
        × (F.file (finish F h w).1.fs h.hdr_path ≡ some h.meta_header)
        × ((finish F h w).1.metrics ≡ record (w.metrics) {
          inserts = inc w.metrics.inserts;
          size_bytes = inc_by (length bytes) w.metrics.size_bytes;
        })
  unfolding finish finish_steps drop_handler
  finish_ok bytes w r p e =
      let w1 = record w { fs = (F.create_dir_all h.dir w.fs).1 } in
      let w2 = (transfer F h (rename_result w1) (promoted w1)).1 in
      let w3 = (commit F h w2).1 in
      ground (
        arith,
        L.file-create_dir_all h.dir h.tmp_path w.fs,
        transfer_ok bytes w1,
        transfer_metrics (rename_result w1) (promoted w1),
        commit_ok w2 r,
        L.file-remove_file_ne h.tmp_path h.body_path w3.fs (λ q. sep.tmp_body (sym q)),
        L.file-remove_file_ne h.tmp_path h.meta_path w3.fs (λ q. sep.tmp_meta (sym q)),
        L.file-remove_file_ne h.tmp_path h.hdr_path w3.fs (λ q. sep.tmp_hdr (sym q)),
      )

  -- `finish` touches no file but its four.
  pub finish_frame :
      (w : World F) (p : FilePath)
      → p ≢ h.tmp_path
      → p ≢ h.body_path
      → p ≢ h.meta_path
      → p ≢ h.hdr_path
      → F.file (finish F h w).1.fs p ≡ F.file w.fs p
  unfolding finish finish_steps drop_handler
  finish_frame w p a b c d =
      let w1 = record w { fs = (F.create_dir_all h.dir w.fs).1 } in
      let w2 = (transfer F h (rename_result w1) (promoted w1)).1 in
      ground (
        arith,
        L.file-create_dir_all h.dir p w.fs,
        L.file-rename_ne h.tmp_path h.body_path p w1.fs a b,
        transfer_frame (rename_result w1) (promoted w1) p a b,
        commit_frame w2 p c d,
        L.file-remove_file_ne h.tmp_path p w2.fs a,
        L.file-remove_file_ne h.tmp_path p (commit F h w2).1.fs a,
      )

module _ (F : FileSystem) (h : DiskMissHandler) where
  -- A `finish` that fails gives an internal error and counts nothing.
  pub finish_err :
      (w : World F) (x : Failure)
      → (finish F h w).0 ≡ err x
      → (x ≡ error internal_error) × ((finish F h w).1.metrics ≡ w.metrics)
  unfolding finish finish_steps drop_handler transfer commit
  finish_err w x e = ground arith
