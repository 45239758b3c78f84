-- ===== src/Disk/Store/Insert.antt =====
-- Storing a response: `get_miss_handler`, `write_body` for each piece, `finish`.
use edge_cdn_store.Common.{
  ℕ, ◌≡◌, ◌≢◌, sym, subst, ◌∙◌, ap, List, [], some, Result, ok, err, length, concat, Result-cases,
  inl, inr,
}
use edge_cdn_store.Common.State.{M, then_on, ◌>>=◌, Failure}
use edge_cdn_store.Disk.Files.{Bytes, FilePath, FileSystem, IsLawful}
use edge_cdn_store.Disk.World.{World, CacheMetrics, CacheTypes, inc, inc_by}
use edge_cdn_store.Disk.Paths.{DiskCache, entry_dir, entry_paths}
use edge_cdn_store.Disk.Paths.Separate.{
  InEntry, in_body, in_meta, in_hdr, InEntry-ne, InEntry-ne_tmp,
}
use edge_cdn_store.Disk.Miss.{DiskMissHandler, MissFinishType, created, Stamp, finish}
use edge_cdn_store.Disk.Miss.Write.{Pending, write_pieces, write_pieces_ok, write_pieces_frame}
use edge_cdn_store.Disk.Miss.Finish.{AreSeparate, finish_ok, finish_frame}
use edge_cdn_store.Disk.Store.Handler.{
  handler_for, tmp_of, handler_for-AreSeparate, get_miss_handler_ok, get_miss_handler_frame,
}
use edge_cdn_store.Disk.Store.{get_miss_handler}

module _ (F : FileSystem) (P : CacheTypes) (c : DiskCache) where
  -- What the proxy calls to store a response that arrives in pieces.
  unfoldable pub store_response :
      P.CacheKey → P.CacheMeta → Stamp → List Bytes → M (World F) MissFinishType
  store_response key meta t pieces = do
    h ← get_miss_handler F P c key meta t
    h' ← write_pieces F pieces h
    finish F h'

  -- The entry of a hash is on disk, with this body and this metadata.
  pub record Stored (hash body a b : Bytes) (w : World F) : Type 0 where
    pub body_stored : F.file w.fs (entry_paths c hash).body ≡ some body
    pub meta_stored : F.file w.fs (entry_paths c hash).meta ≡ some a
    pub hdr_stored : F.file w.fs (entry_paths c hash).hdr ≡ some b

err-ne-ok {ℓ κ} :
    {E : Type ℓ} {A : Type κ} {r : Result E A} {x : E} {a : A} → r ≡ err x → r ≡ ok a → ⊥
err-ne-ok p q = cc

module _ (F : FileSystem) (L : IsLawful F) (P : CacheTypes) (c : DiskCache) where
  pub finish_handler_ok :
      (hash : Bytes) (t : Stamp) (a b body : Bytes) (h : DiskMissHandler) (w : World F)
      (r : MissFinishType)
      → h ≡ handler_for c hash t a b h.tmp_bytes_written
      → Pending F h body w
      → (finish F h w).0 ≡ ok r
      → (r ≡ created (length body))
        × Stored F P c hash body a b (finish F h w).1
        × ((finish F h w).1.metrics ≡ record (w.metrics) {
          inserts = inc w.metrics.inserts;
          size_bytes = inc_by (length body) w.metrics.size_bytes;
        })
  finish_handler_ok hash t a b body h w r same p e =
      let sep =
        subst AreSeparate (sym same) (handler_for-AreSeparate c hash t a b h.tmp_bytes_written) in
      let (what, body_in, meta_in, hdr_in, counted) = finish_ok F L h sep body w r p e in
      (
        what,
        record {
          body_stored =
              ap (λ (g : DiskMissHandler). F.file (finish F h w).1.fs g.body_path) (sym same)
              ∙ body_in;
          meta_stored =
              ap (λ (g : DiskMissHandler). F.file (finish F h w).1.fs g.meta_path) (sym same)
              ∙ meta_in
              ∙ ap (λ (g : DiskMissHandler). some (g.meta_internal)) same;
          hdr_stored =
              ap (λ (g : DiskMissHandler). F.file (finish F h w).1.fs g.hdr_path) (sym same)
              ∙ hdr_in
              ∙ ap (λ (g : DiskMissHandler). some (g.meta_header)) same;
        },
        counted,
      )

  store_response_lem :
      (k : P.CacheKey) (m : P.CacheMeta) (t : Stamp) (pieces : List Bytes) (w : World F)
      (h h' : DiskMissHandler)
      → (get_miss_handler F P c k m t w).0 ≡ ok h
      → (write_pieces F pieces h (get_miss_handler F P c k m t w).1).0 ≡ ok h'
      → store_response F P c k m t pieces w
        ≡ finish F h' (write_pieces F pieces h (get_miss_handler F P c k m t w).1).1
  unfolding store_response
  store_response_lem k m t pieces w h h' got wrote = rw (got, then_on, wrote, then_on)

  no_handler :
      (k : P.CacheKey) (m : P.CacheMeta) (t : Stamp) (pieces : List Bytes) (w : World F)
      (x : Failure)
      → (get_miss_handler F P c k m t w).0 ≡ err x
      → store_response F P c k m t pieces w ≡ (err x, (get_miss_handler F P c k m t w).1)
  unfolding store_response
  no_handler k m t pieces w x failed = rw (failed, then_on)

  no_body :
      (k : P.CacheKey) (m : P.CacheMeta) (t : Stamp) (pieces : List Bytes) (w : World F)
      (h : DiskMissHandler) (x : Failure)
      → (get_miss_handler F P c k m t w).0 ≡ ok h
      → (write_pieces F pieces h (get_miss_handler F P c k m t w).1).0 ≡ err x
      → store_response F P c k m t pieces w
        ≡ (err x, (write_pieces F pieces h (get_miss_handler F P c k m t w).1).1)
  unfolding store_response
  no_body k m t pieces w h x got failed = rw (got, then_on, failed, then_on)

  reshape :
      {h h' : DiskMissHandler} (hash : Bytes) (t : Stamp) (a b : Bytes) (j : ℕ)
      → h' ≡ record h { tmp_bytes_written = h'.tmp_bytes_written }
      → h ≡ handler_for c hash t a b j
      → h' ≡ handler_for c hash t a b h'.tmp_bytes_written
  reshape {h'} hash t a b j p q =
      p ∙ ap (λ (g : DiskMissHandler). record g { tmp_bytes_written = h'.tmp_bytes_written }) q

  finish_elsewhere :
      (k : P.CacheKey) (t : Stamp) (a b : Bytes) (h : DiskMissHandler) (w : World F) (g : Bytes)
      (p : FilePath)
      → h ≡ handler_for c (P.combined k) t a b h.tmp_bytes_written
      → g ≢ P.combined k
      → InEntry c g p
      → F.file (finish F h w).1.fs p ≡ F.file w.fs p
  finish_elsewhere k t a b h w g p same n i =
      let hash = P.combined k in
      let sep =
        subst AreSeparate (sym same) (handler_for-AreSeparate c hash t a b h.tmp_bytes_written) in
      finish_frame F L h sep w p
        (λ e. InEntry-ne_tmp i (entry_dir c hash) hash t (e ∙ ap tmp_of same))
        (λ e. InEntry-ne i in_body n (e ∙ ap (λ (x : DiskMissHandler). x.body_path) same))
        (λ e. InEntry-ne i in_meta n (e ∙ ap (λ (x : DiskMissHandler). x.meta_path) same))
        (λ e. InEntry-ne i in_hdr n (e ∙ ap (λ (x : DiskMissHandler). x.hdr_path) same))

  -- A store that returns has put the joined pieces and the serialized metadata on disk, says their
  -- number of bytes, and has counted a miss and an insertion; the gauge grows by the whole body,
  -- also where the entry replaces another.
  pub store_response_ok :
      (k : P.CacheKey) (m : P.CacheMeta) (t : Stamp) (pieces : List Bytes) (w : World F)
      (r : MissFinishType)
      → (store_response F P c k m t pieces w).0 ≡ ok r
      → let w' = (store_response F P c k m t pieces w).1 in
        (a : Bytes) × (b : Bytes) × (P.serialize m ≡ ok (a, b))
        × (r ≡ created (length (concat pieces)))
        × Stored F P c (P.combined k) (concat pieces) a b w'
        × (w'.metrics ≡ record (w.metrics) {
          misses = inc w.metrics.misses;
          inserts = inc w.metrics.inserts;
          size_bytes = inc_by (length (concat pieces)) w.metrics.size_bytes;
        })
  store_response_ok k m t pieces w r e = elim (Result-cases (get_miss_handler F P c k m t w).0) [
    | inr (x, failed) ↦ absurd (err-ne-ok (ap (λ d. d.0) (no_handler k m t pieces w x failed)) e)
    | inl (h, got) ↦
        let w1 = (get_miss_handler F P c k m t w).1 in
        elim (Result-cases (write_pieces F pieces h w1).0) [
          | inr (x, failed) ↦
              absurd (err-ne-ok (ap (λ d. d.0) (no_body k m t pieces w h x got failed)) e)
          | inl (h', wrote) ↦
              let (a, b, parts, same, pending, counted) =
                get_miss_handler_ok F L P c k m t w h got in
              let (pending', same', counted') =
                write_pieces_ok F L pieces h h' [] w1 pending wrote in
              let run = store_response_lem k m t pieces w h h' got wrote in
              let (what, stored, counted'') =
                finish_handler_ok (P.combined k) t a b (concat pieces) h' _ r
                  (reshape (P.combined k) t a b 0 same' same) pending' (rw run at e) in
              rw run (
                a,
                b,
                parts,
                what,
                stored,
                counted''
                    ∙ ap
                        (λ (x : CacheMetrics). record x {
                          inserts = inc x.inserts;
                          size_bytes = inc_by (length (concat pieces)) x.size_bytes;
                        })
                        (counted' ∙ counted),
              )
        ]
  ]

  -- Whether it succeeds or not, it touches no file of another entry.
  pub store_response_frame :
      (k : P.CacheKey) (m : P.CacheMeta) (t : Stamp) (pieces : List Bytes) (w : World F) (g : Bytes)
      (p : FilePath)
      → g ≢ P.combined k
      → InEntry c g p
      → F.file (store_response F P c k m t pieces w).1.fs p ≡ F.file w.fs p
  store_response_frame k m t pieces w g p n i =
      let tmp = InEntry-ne_tmp i (entry_dir c (P.combined k)) (P.combined k) t in
      let opening = get_miss_handler_frame F L P c k m t w p tmp in
      elim (Result-cases (get_miss_handler F P c k m t w).0) [
        | inr (x, failed) ↦ rw (no_handler k m t pieces w x failed) opening
        | inl (h, got) ↦
            let w1 = (get_miss_handler F P c k m t w).1 in
            let (a, b, parts, same, pending, counted) = get_miss_handler_ok F L P c k m t w h got in
            let writing =
              write_pieces_frame F L pieces h w1 p (λ e. tmp (e ∙ ap tmp_of same)) ∙ opening in
            elim (Result-cases (write_pieces F pieces h w1).0) [
              | inr (x, failed) ↦ rw (no_body k m t pieces w h x got failed) writing
              | inl (h', wrote) ↦
                  let (_, same', _) = write_pieces_ok F L pieces h h' [] w1 pending wrote in
                  rw (store_response_lem k m t pieces w h h' got wrote) (
                    finish_elsewhere k t a b h' _ g p (reshape (P.combined k) t a b 0 same' same) n
                      i
                    ∙ writing)
            ]
      ]
