-- ===== src/Disk/Store/InFlight.antt =====
-- A response that is being stored: what is on disk before `finish`.
use edge_cdn_store.Common.{◌≡◌, ◌∙◌, ap, List, Result-cases, inl, inr}
use edge_cdn_store.Common.State.{M, ◌>>=◌, then_on}
use edge_cdn_store.Disk.Files.{Bytes, FilePath, FileSystem, IsLawful}
use edge_cdn_store.Disk.World.{World, CacheTypes}
use edge_cdn_store.Disk.Paths.{DiskCache, entry_dir}
use edge_cdn_store.Disk.Paths.Separate.{InEntry, InEntry-ne_tmp}
use edge_cdn_store.Disk.Miss.{DiskMissHandler, Stamp}
use edge_cdn_store.Disk.Miss.Write.{write_pieces, write_pieces_frame}
use edge_cdn_store.Disk.Store.{get_miss_handler}
use edge_cdn_store.Disk.Store.Handler.{tmp_of, get_miss_handler_ok, get_miss_handler_frame}

module _ (F : FileSystem) (P : CacheTypes) (c : DiskCache) where
  -- What the proxy calls before it calls `finish`, or drops the handler.
  unfoldable pub begin_response :
      P.CacheKey → P.CacheMeta → Stamp → List Bytes → M (World F) DiskMissHandler
  begin_response key meta t pieces = do
    h ← get_miss_handler F P c key meta t
    write_pieces F pieces h

module _ (F : FileSystem) (L : IsLawful F) (P : CacheTypes) (c : DiskCache) where
  -- A response that is being stored is invisible: until `finish` no body, metadata or header file
  -- of any entry changes, that of the response's own key included, whether the calls succeed or
  -- not.
  pub begin_response_frame :
      (k : P.CacheKey) (m : P.CacheMeta) (t : Stamp) (pieces : List Bytes) (w : World F) (g : Bytes)
      (p : FilePath)
      → InEntry c g p
      → F.file (begin_response F P c k m t pieces w).1.fs p ≡ F.file w.fs p
  unfolding begin_response
  begin_response_frame k m t pieces w g p i =
      let tmp = InEntry-ne_tmp i (entry_dir c (P.combined k)) (P.combined k) t in
      let opening = get_miss_handler_frame F L P c k m t w p tmp in
      elim (Result-cases (get_miss_handler F P c k m t w).0) [
        | inr (x, failed) ↦ rw (failed, then_on) opening
        | inl (h, got) ↦
            let (a, b, parts, same, pending, counted) = get_miss_handler_ok F L P c k m t w h got in
            rw (got, then_on)
              (write_pieces_frame F L pieces h (get_miss_handler F P c k m t w).1 p
                  (λ e. tmp (e ∙ ap tmp_of same))
                ∙ opening)
      ]
