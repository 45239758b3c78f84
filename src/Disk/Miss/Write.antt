-- ===== src/Disk/Miss/Write.antt =====
-- Filling the temporary file: `create_tmp` and `write_body`.
use edge_cdn_store.Common.{
  Bool, true, false, ◌≡◌, refl, List, [], ◌∷◌, ◌++◌, some, ok, length, arith, length-append, concat,
  append-nil, append_assoc, Result-cases, inl, inr,
}
use edge_cdn_store.Common.Text.{Text}
use edge_cdn_store.Disk.Files.{Bytes, FilePath, join, FileSystem, IsLawful}
use edge_cdn_store.Common.{◌≢◌}
use edge_cdn_store.Common.State.{M, pure, ◌>>=◌}
use edge_cdn_store.Disk.World.{World}
use edge_cdn_store.Disk.Miss.{DiskMissHandler, Stamp, tmp_name, create_tmp, write_body}

module _ (F : FileSystem) where
  -- The temporary file of the handler holds these bytes, and the handler has counted them.
  pub record Pending (h : DiskMissHandler) (bytes : Bytes) (w : World F) : Type 0 where
    pub stored : F.file w.fs h.tmp_path ≡ some bytes
    pub counted : h.tmp_bytes_written ≡ length bytes

module _ (F : FileSystem) (L : IsLawful F) where
  pub create_tmp_ok :
      (dir : FilePath) (hint : Text) (t : Stamp) (w : World F) (p : FilePath)
      → (create_tmp F dir hint t w).0 ≡ ok p
      → (p ≡ join dir (tmp_name hint t))
        × (F.file (create_tmp F dir hint t w).1.fs p ≡ some [])
        × ((create_tmp F dir hint t w).1.metrics ≡ w.metrics)
  unfolding create_tmp
  create_tmp_ok dir hint t w p e =
      ground (arith, L.create_ok (join dir (tmp_name hint t)) (F.create_dir_all dir w.fs).1)

  pub write_body_ok :
      (b : Bytes) (is_eof : Bool) (h h' : DiskMissHandler) (bytes : Bytes) (w : World F)
      → Pending F h bytes w
      → (write_body F b is_eof h w).0 ≡ ok h'
      → Pending F h' (bytes ++ b) (write_body F b is_eof h w).1
  unfolding write_body
  write_body_ok b is_eof h h' bytes w p e =
      grind (arith, L.append_all_ok, L.file-open_append, L.file-flush, length-append)

  -- `write_body` changes nothing but the temporary file and the count.
  pub write_body_rest :
      (b : Bytes) (is_eof : Bool) (h h' : DiskMissHandler) (w : World F)
      → (write_body F b is_eof h w).0 ≡ ok h'
      → h' ≡ record h { tmp_bytes_written = h'.tmp_bytes_written }
  unfolding write_body
  write_body_rest b is_eof h h' w e = ground arith

  pub write_body_frame :
      (b : Bytes) (is_eof : Bool) (h : DiskMissHandler) (w : World F) (p : FilePath)
      → p ≢ h.tmp_path
      → F.file (write_body F b is_eof h w).1.fs p ≡ F.file w.fs p
  unfolding write_body
  write_body_frame b is_eof h w p n =
      grind (arith, L.file-append_all_ne, L.file-open_append, L.file-flush)

  pub write_body_metrics :
      (b : Bytes) (is_eof : Bool) (h : DiskMissHandler) (w : World F)
      → (write_body F b is_eof h w).1.metrics ≡ w.metrics
  unfolding write_body
  write_body_metrics b is_eof h w = ground arith

abbrev is_last : List Bytes → Bool
is_last [] = true
is_last (b ∷ bs) = false

module _ (F : FileSystem) where
  -- The body of a response in pieces, the last one marked.
  unfoldable pub write_pieces : List Bytes → DiskMissHandler → M (World F) DiskMissHandler
  write_pieces [] h = pure h
  write_pieces (b ∷ bs) h = do h' ← write_body F b (is_last bs) h; write_pieces bs h'

module _ (F : FileSystem) (L : IsLawful F) where
  pub write_pieces_ok :
      (bs : List Bytes) (h h' : DiskMissHandler) (bytes : Bytes) (w : World F)
      → Pending F h bytes w
      → (write_pieces F bs h w).0 ≡ ok h'
      → Pending F h' (bytes ++ concat bs) (write_pieces F bs h w).1
        × (h' ≡ record h { tmp_bytes_written = h'.tmp_bytes_written })
        × ((write_pieces F bs h w).1.metrics ≡ w.metrics)
  unfolding write_pieces
  write_pieces_ok [] h h' bytes w p e = rw append-nil (ground arith)
  write_pieces_ok (b ∷ bs) h h' bytes w p e =
      elim (Result-cases (write_body F b (is_last bs) h w).0) [
        | inl (g, wrote) ↦ ground (
          arith,
          write_body_ok F L b (is_last bs) h g bytes w p wrote,
          write_body_rest F L b (is_last bs) h g w wrote,
          write_body_metrics F L b (is_last bs) h w,
          write_pieces_ok bs g h' (bytes ++ b) (write_body F b (is_last bs) h w).1,
          append_assoc bytes b (concat bs),
        )
        | inr (x, failed) ↦ ground arith
      ]

  pub write_pieces_frame :
      (bs : List Bytes) (h : DiskMissHandler) (w : World F) (p : FilePath)
      → p ≢ h.tmp_path
      → F.file (write_pieces F bs h w).1.fs p ≡ F.file w.fs p
  unfolding write_pieces
  write_pieces_frame [] h w p n = refl
  write_pieces_frame (b ∷ bs) h w p n = elim (Result-cases (write_body F b (is_last bs) h w).0) [
    | inl (g, wrote) ↦ ground (
      arith,
      write_body_rest F L b (is_last bs) h g w wrote,
      write_body_frame F L b (is_last bs) h w p n,
      write_pieces_frame bs g (write_body F b (is_last bs) h w).1 p,
    )
    | inr (x, failed) ↦ ground (arith, write_body_frame F L b (is_last bs) h w p n)
  ]
