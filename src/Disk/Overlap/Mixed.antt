-- ===== src/Disk/Overlap/Mixed.antt =====
-- Two overlapping calls of `finish` for one entry.
use edge_cdn_store.Common.{
  ◌≡◌, ◌≢◌, refl, sym, ◌∙◌, ap, some, Result, ok, err, arith, if◌then◌else◌, ◌==◌,
}
use edge_cdn_store.Disk.Files.{Bytes, FilePath, FileSystem, IoError, IsLawful}
use edge_cdn_store.Disk.World.{World}
use edge_cdn_store.Disk.Miss.{DiskMissHandler, MissFinishType, drop_handler, finish}
use edge_cdn_store.Disk.Miss.Write.{Pending}
use edge_cdn_store.Disk.Miss.Finish.{AreSeparate, finish_ok}
use edge_cdn_store.Disk.Overlap.{
  Others, meanwhile, transfer_among, promote_among, commit_among, finish_among,
}

-- Two responses for one entry, with two temporary files.
pub record AreRivals (h h' : DiskMissHandler) : Type 0 where
  pub one_body : h'.body_path ≡ h.body_path
  pub one_meta : h'.meta_path ≡ h.meta_path
  pub one_hdr : h'.hdr_path ≡ h.hdr_path
  pub two_tmps : h'.tmp_path ≢ h.tmp_path

-- The other response is finished when this one is about to write its metadata.
abbrev pub rival : (F : FileSystem) → DiskMissHandler → Others F
rival F h' i w = if i == 6 then (finish F h' w).1 else w

module _ (F : FileSystem) (L : IsLawful F) (h h' : DiskMissHandler) (sep : AreSeparate h)
    (sep' : AreSeparate h') (rivals : AreRivals h h') where
  transfer_among_frame :
      (r : Result IoError (Unit {0})) (w : World F) (p : FilePath)
      → p ≢ h.tmp_path
      → p ≢ h.body_path
      → F.file (transfer_among F (rival F h') h r w).1.fs p ≡ F.file w.fs p
  unfolding transfer_among meanwhile
  transfer_among_frame (ok _) w p n n' = refl
  transfer_among_frame (err x) w p n n' =
      grind (arith, L.file-open_file, L.file-create_ne, L.file-copy_ne, L.file-remove_file_ne)

  promote_among_frame :
      (w : World F) (p : FilePath)
      → p ≢ h.tmp_path
      → p ≢ h.body_path
      → F.file (promote_among F (rival F h') h w).1.fs p ≡ F.file w.fs p
  unfolding promote_among meanwhile
  promote_among_frame w p n n' =
      let s1 = (F.create_dir_all h.dir w.fs).1 in
      let renamed = F.rename h.tmp_path h.body_path s1 in
      transfer_among_frame renamed.0 (record w { fs = renamed.1 }) p n n'
      ∙ L.file-rename_ne h.tmp_path h.body_path p s1 n n'
      ∙ L.file-create_dir_all h.dir p w.fs

  commit_among_mixed :
      (bytes : Bytes) (w : World F) (r : MissFinishType)
      → F.file (finish F h' w).1.fs h.body_path ≡ some bytes
      → (commit_among F (rival F h') h w).0 ≡ ok r
      → (F.file (commit_among F (rival F h') h w).1.fs h.body_path ≡ some bytes)
        × (F.file (commit_among F (rival F h') h w).1.fs h.meta_path ≡ some h.meta_internal)
        × (F.file (commit_among F (rival F h') h w).1.fs h.hdr_path ≡ some h.meta_header)
  unfolding commit_among meanwhile
  commit_among_mixed bytes w r there e =
      let w1 = (finish F h' w).1 in
      let s2 = (F.write h.meta_path h.meta_internal w1.fs).1 in
      ground (
        arith,
        L.write_ok h.meta_path h.meta_internal w1.fs,
        L.file-write_ne h.meta_path h.body_path h.meta_internal w1.fs sep.body_meta,
        L.write_ok h.hdr_path h.meta_header s2,
        L.file-write_ne h.hdr_path h.body_path h.meta_header s2 sep.body_hdr,
        L.file-write_ne h.hdr_path h.meta_path h.meta_header s2 sep.meta_hdr,
      )

  -- Two responses for one entry are finished, and the second `finish` runs while the first one is
  -- about to write its metadata. If both return, the entry has the body of the second response and
  -- the metadata of the first.
  pub finish_among_mixed :
      (bytes : Bytes) (w : World F) (r r' : MissFinishType)
      → Pending F h' bytes w
      → (finish_among F (rival F h') h w).0 ≡ ok r
      → (finish F h' (promote_among F (rival F h') h w).1).0 ≡ ok r'
      → let w' = (finish_among F (rival F h') h w).1 in
        (F.file w'.fs h.body_path ≡ some bytes)
        × (F.file w'.fs h.meta_path ≡ some h.meta_internal)
        × (F.file w'.fs h.hdr_path ≡ some h.meta_header)
  unfolding finish_among drop_handler
  finish_among_mixed bytes w r r' p e e' =
      let w1 = (promote_among F (rival F h') h w).1 in
      let w2 = (commit_among F (rival F h') h w1).1 in
      let apart : h'.tmp_path ≢ h.body_path = λ q. sep'.tmp_body (q ∙ sym rivals.one_body) in
      let waiting : Pending F h' bytes w1 = record {
        stored = promote_among_frame w h'.tmp_path rivals.two_tmps apart ∙ p.stored;
        counted = p.counted;
      } in
      let (_, there, _, _, _) = finish_ok F L h' sep' bytes w1 r' waiting e' in
      let here : F.file (finish F h' w1).1.fs h.body_path ≡ some bytes =
        ap (F.file (finish F h' w1).1.fs) (sym rivals.one_body) ∙ there in
      ground (
        arith,
        e,
        commit_among_mixed bytes w1 r here,
        L.file-remove_file_ne h.tmp_path h.body_path w2.fs (λ q. sep.tmp_body (sym q)),
        L.file-remove_file_ne h.tmp_path h.meta_path w2.fs (λ q. sep.tmp_meta (sym q)),
        L.file-remove_file_ne h.tmp_path h.hdr_path w2.fs (λ q. sep.tmp_hdr (sym q)),
      )
