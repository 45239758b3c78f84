-- ===== src/Disk/Overlap/Published.antt =====
-- What overlapping calls of `finish` publish.
use edge_cdn_store.Common.{ℕ, ◌≡◌, sym, ◌∙◌, some, ok, err, length, arith, Result-cases, inl, inr}
use edge_cdn_store.Common.State.{pair_path}
use edge_cdn_store.Disk.Files.{Bytes, FilePath, FileSystem, IoError, IsLawful}
use edge_cdn_store.Disk.World.{World}
use edge_cdn_store.Disk.Miss.{
  DiskMissHandler, MissFinishType, created, transfer, commit, drop_handler, finish_steps, finish,
}
use edge_cdn_store.Disk.Miss.Write.{Pending}
use edge_cdn_store.Disk.Miss.Finish.{AreSeparate}
use edge_cdn_store.Disk.Overlap.{
  Others, meanwhile, transfer_among, promote_among, commit_among, finish_among,
}

module _ (F : FileSystem) where
  -- With no other task it is `finish`.
  pub finish_among-finish :
      (h : DiskMissHandler) (w : World F) → finish_among F (λ i v. v) h w ≡ finish F h w
  unfolding finish_among promote_among commit_among transfer_among meanwhile finish finish_steps
      commit transfer
  finish_among-finish h w =
      elim (Result-cases (F.rename h.tmp_path h.body_path (F.create_dir_all h.dir w.fs).1).0) [
        | inl (_, renamed) ↦ pair_path _ (ground (arith, renamed)) (ground (arith, renamed))
        | inr (x, failed) ↦ pair_path _ (ground (arith, failed)) (ground (arith, failed))
      ]

-- The three files of the entry and the temporary file of a handler.
pub data IsOwn (h : DiskMissHandler) : FilePath → Type 0 where
  own_tmp : IsOwn h h.tmp_path
  own_body : IsOwn h h.body_path
  own_meta : IsOwn h h.meta_path
  own_hdr : IsOwn h h.hdr_path

module _ (F : FileSystem) (L : IsLawful F) (others : Others F) (h : DiskMissHandler)
    (sep : AreSeparate h) where
  module _
      (quiet : (i : ℕ) (w : World F) (p : FilePath)
        → IsOwn h p
        → F.file (others i w).fs p ≡ F.file w.fs p) where
    transfer_among_ok :
        (bytes : Bytes) (x : IoError) (w : World F)
        → F.file w.fs h.tmp_path ≡ some bytes
        → (transfer_among F others h (err x) w).0 ≡ ok tt
        → F.file (transfer_among F others h (err x) w).1.fs h.body_path ≡ some bytes
    unfolding transfer_among meanwhile
    transfer_among_ok bytes x w p e =
        let w2 = others 2 w in
        let w3 = record w2 { fs = (F.open_file h.tmp_path w2.fs).1 } in
        let w4 = others 3 w3 in
        let w5 = record w4 { fs = (F.create h.body_path w4.fs).1 } in
        let w6 = others 4 w5 in
        let w7 = record w6 { fs = (F.copy h.tmp_path h.body_path w6.fs).1 } in
        let w8 = others 5 w7 in
        ground (
          arith,
          quiet 2 w h.tmp_path own_tmp,
          L.file-open_file h.tmp_path h.tmp_path w2.fs,
          quiet 3 w3 h.tmp_path own_tmp,
          L.create_ok h.body_path w4.fs,
          L.file-create_ne h.body_path h.tmp_path w4.fs sep.tmp_body,
          quiet 4 w5 h.tmp_path own_tmp,
          quiet 4 w5 h.body_path own_body,
          L.copy_ok h.tmp_path h.body_path w6.fs,
          quiet 5 w7 h.body_path own_body,
          L.file-remove_file_ne h.tmp_path h.body_path w8.fs (λ q. sep.tmp_body (sym q)),
        )

    promote_among_ok :
        (bytes : Bytes) (w : World F)
        → F.file w.fs h.tmp_path ≡ some bytes
        → (promote_among F others h w).0 ≡ ok tt
        → F.file (promote_among F others h w).1.fs h.body_path ≡ some bytes
    unfolding promote_among meanwhile
    promote_among_ok bytes w p e =
        let w0 = others 0 w in
        let w1 = record w0 { fs = (F.create_dir_all h.dir w0.fs).1 } in
        let w2 = others 1 w1 in
        let w3 = record w2 { fs = (F.rename h.tmp_path h.body_path w2.fs).1 } in
        let here : F.file w2.fs h.tmp_path ≡ some bytes =
          quiet 1 w1 h.tmp_path own_tmp
          ∙ L.file-create_dir_all h.dir h.tmp_path w0.fs
          ∙ quiet 0 w h.tmp_path own_tmp
          ∙ p in
        elim (Result-cases (F.rename h.tmp_path h.body_path w2.fs).0) [
          | inl (_, renamed) ↦
              unfold transfer_among in
              ground (arith, renamed, here, L.rename_ok h.tmp_path h.body_path w2.fs)
          | inr (x, failed) ↦ rw failed (
              transfer_among_ok bytes x w3
                (L.rename_err h.tmp_path h.body_path h.tmp_path w2.fs x failed ∙ here)
                (rw failed at e))
        ]

    commit_among_ok :
        (bytes : Bytes) (w : World F) (r : MissFinishType)
        → F.file w.fs h.body_path ≡ some bytes
        → (commit_among F others h w).0 ≡ ok r
        → (r ≡ created h.tmp_bytes_written)
          × (F.file (commit_among F others h w).1.fs h.body_path ≡ some bytes)
          × (F.file (commit_among F others h w).1.fs h.meta_path ≡ some h.meta_internal)
          × (F.file (commit_among F others h w).1.fs h.hdr_path ≡ some h.meta_header)
    unfolding commit_among meanwhile
    commit_among_ok bytes w r p e =
        let w1 = others 6 w in
        let w2 = record w1 { fs = (F.write h.meta_path h.meta_internal w1.fs).1 } in
        let w3 = others 7 w2 in
        let w4 = record w3 { fs = (F.write h.hdr_path h.meta_header w3.fs).1 } in
        ground (
          arith,
          quiet 6 w h.body_path own_body,
          L.write_ok h.meta_path h.meta_internal w1.fs,
          L.file-write_ne h.meta_path h.body_path h.meta_internal w1.fs sep.body_meta,
          quiet 7 w2 h.body_path own_body,
          quiet 7 w2 h.meta_path own_meta,
          L.write_ok h.hdr_path h.meta_header w3.fs,
          L.file-write_ne h.hdr_path h.body_path h.meta_header w3.fs sep.body_hdr,
          L.file-write_ne h.hdr_path h.meta_path h.meta_header w3.fs sep.meta_hdr,
          quiet 8 w4 h.body_path own_body,
          quiet 8 w4 h.meta_path own_meta,
          quiet 8 w4 h.hdr_path own_hdr,
        )

    -- A `finish` that awaits while others run, of which none touches the files of its entry or its
    -- temporary file: if it returns, it says the number of its bytes, and the entry has the body and
    -- the metadata of its own response.
    pub finish_among_ok :
        (bytes : Bytes) (w : World F) (r : MissFinishType)
        → Pending F h bytes w
        → (finish_among F others h w).0 ≡ ok r
        → let w' = (finish_among F others h w).1 in
          (r ≡ created (length bytes))
          × (F.file w'.fs h.body_path ≡ some bytes)
          × (F.file w'.fs h.meta_path ≡ some h.meta_internal)
          × (F.file w'.fs h.hdr_path ≡ some h.meta_header)
    unfolding finish_among drop_handler
    finish_among_ok bytes w r p e =
        let w1 = (promote_among F others h w).1 in
        let w2 = (commit_among F others h w1).1 in
        ground (
          arith,
          p.stored,
          p.counted,
          promote_among_ok bytes w p.stored,
          commit_among_ok bytes w1 r,
          L.file-remove_file_ne h.tmp_path h.body_path w2.fs (λ q. sep.tmp_body (sym q)),
          L.file-remove_file_ne h.tmp_path h.meta_path w2.fs (λ q. sep.tmp_meta (sym q)),
          L.file-remove_file_ne h.tmp_path h.hdr_path w2.fs (λ q. sep.tmp_hdr (sym q)),
        )
