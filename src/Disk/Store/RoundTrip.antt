-- ===== src/Disk/Store/RoundTrip.antt =====
-- Storing a response and reading it again, and storing another one beside it.
use edge_cdn_store.Common.{ℕ, ◌-◌, ◌<◌, ◌≡◌, ◌≢◌, ◌∙◌, ap, List, some, ok, length, arith, concat}
use edge_cdn_store.Disk.Files.{Bytes, FileSystem, IsLawful, IsReliable}
use edge_cdn_store.Disk.World.{World, CacheTypes, IsLawfulTypes}
use edge_cdn_store.Disk.Paths.{DiskCache}
use edge_cdn_store.Disk.Paths.Separate.{in_body, in_meta, in_hdr}
use edge_cdn_store.Disk.Miss.{MissFinishType, Stamp}
use edge_cdn_store.Disk.Hit.{DiskHitHandler}
use edge_cdn_store.Disk.Hit.Read.{next_pos, length-remaining}
use edge_cdn_store.Disk.Hit.Serve.{serve_all, serve_all_healthy}
use edge_cdn_store.Disk.Store.{lookup}
use edge_cdn_store.Disk.Store.Insert.{
  Stored, store_response, store_response_ok, store_response_frame,
}
use edge_cdn_store.Disk.Store.Lookup.{lookup_sound, lookup_complete}

module _ (F : FileSystem) (L : IsLawful F) (P : CacheTypes) (LP : IsLawfulTypes P)
    (c : DiskCache) where
  -- On a healthy disk an entry that is stored, and whose metadata can be read, is served: a lookup
  -- is a hit with the metadata, and a run of reads ends and returns the body.
  pub serve_all-Stored :
      (IsHealthy : F.State → Type 0)
      → IsReliable F IsHealthy
      → (k : P.CacheKey) (m : P.CacheMeta) (body a b : Bytes) (w : World F) (fuel : ℕ)
      → IsHealthy w.fs
      → Stored F P c (P.combined k) body a b w
      → P.deserialize a b ≡ ok m
      → length body < fuel
      → let d = lookup F P c k w in
        (h : DiskHitHandler F) × (h' : DiskHitHandler F) × (w'' : World F) × (d.0
          ≡ ok (some (m, h)))
        × (serve_all F fuel h d.1 ≡ some (ok body, h', w''))
  serve_all-Stored IsHealthy R k m body a b w fuel healthy stored back more =
      let (h, found, hits, calm) =
        lookup_complete F L P LP c IsHealthy R k m body a b w healthy stored back in
      let (same, sync, rest) = lookup_sound F L P LP c k m m body a b w h stored back found in
      let whole = length-remaining F h (lookup F P c k w).1 sync in
      let enough : h.range_end - next_pos F h < fuel = omega (arith, ap length rest, whole) in
      let (h', w'', served) = serve_all_healthy F IsHealthy R L fuel h _ calm sync enough in
      (h, h', w'', found, served ∙ ap (λ bs. some (ok bs, h', w'')) rest)

  -- After a store that returned, if the disk is healthy, a lookup is a hit and a run of reads ends:
  -- the response comes back, with its metadata and with its pieces joined. Fuel above the length
  -- of the body is enough.
  pub serve_all-store_response :
      (IsHealthy : F.State → Type 0)
      → IsReliable F IsHealthy
      → (k : P.CacheKey) (m : P.CacheMeta) (t : Stamp) (pieces : List Bytes) (w : World F)
        (r : MissFinishType) (fuel : ℕ)
      → (store_response F P c k m t pieces w).0 ≡ ok r
      → IsHealthy (store_response F P c k m t pieces w).1.fs
      → length (concat pieces) < fuel
      → let d = lookup F P c k (store_response F P c k m t pieces w).1 in
        (h : DiskHitHandler F) × (h' : DiskHitHandler F) × (w'' : World F) × (d.0
          ≡ ok (some (m, h)))
        × (serve_all F fuel h d.1 ≡ some (ok (concat pieces), h', w''))
  serve_all-store_response IsHealthy R k m t pieces w r fuel e healthy more =
      let (a, b, parts, what, stored, counted) = store_response_ok F L P c k m t pieces w r e in
      serve_all-Stored IsHealthy R k m (concat pieces) a b (store_response F P c k m t pieces w).1
        fuel healthy stored (LP.deserialize-serialize m a b parts) more

  -- Storing one response leaves the stored entry of any other key.
  pub Stored-store_response :
      (k : P.CacheKey) (m : P.CacheMeta) (t : Stamp) (pieces : List Bytes) (w : World F)
      (g body a b : Bytes)
      → g ≢ P.combined k
      → Stored F P c g body a b w
      → Stored F P c g body a b (store_response F P c k m t pieces w).1
  Stored-store_response k m t pieces w g body a b n st = record {
    body_stored = store_response_frame F L P c k m t pieces w g _ n in_body ∙ st.body_stored;
    meta_stored = store_response_frame F L P c k m t pieces w g _ n in_meta ∙ st.meta_stored;
    hdr_stored = store_response_frame F L P c k m t pieces w g _ n in_hdr ∙ st.hdr_stored;
  }
