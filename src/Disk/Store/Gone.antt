-- ===== src/Disk/Store/Gone.antt =====
-- What a purge takes away: after it, the entry is not found.
use edge_cdn_store.Common.{
  ℕ, ◌-◌, ◌<◌, ap, ◌∙◌, length, arith, ◌≡◌, ◌≢◌, ◌⊎◌, inl, inr, some, none, true, false, ok,
}
use edge_cdn_store.Disk.Files.{Bytes, FileSystem, IsLawful, IsReliable}
use edge_cdn_store.Disk.World.{World, CacheTypes, IsLawfulTypes}
use edge_cdn_store.Disk.Paths.{DiskCache, entry_paths}
use edge_cdn_store.Disk.Hit.{DiskHitHandler}
use edge_cdn_store.Disk.Store.{PurgeType, lookup, purge}
use edge_cdn_store.Disk.Store.Lookup.{lookup_missing, lookup_sound}
use edge_cdn_store.Disk.Store.Purge.{purge_ok, purge-InSync}
use edge_cdn_store.Disk.Store.Insert.{Stored}
use edge_cdn_store.Disk.Hit.Read.{remaining, next_pos, length-remaining}
use edge_cdn_store.Disk.Hit.Serve.{serve_all, serve_all_healthy}

module _ (F : FileSystem) (L : IsLawful F) (P : CacheTypes) (LP : IsLawfulTypes P)
    (c : DiskCache) where
  -- A purge always returns. If it answers true, the body was there and is gone, and the next lookup
  -- of the key is not a hit; if it answers false, the body is what it was before.
  pub lookup-purge :
      (k : P.CacheKey) (t : PurgeType) (w : World F)
      → let q = entry_paths c (P.combined k) in
        let d = purge F P c (P.to_compact k) t w in
        ((d.0 ≡ ok true)
          × (F.file w.fs q.body ≢ none)
          × (F.file d.1.fs q.body ≡ none)
          × ((hit : P.CacheMeta × DiskHitHandler F) → (lookup F P c k d.1).0 ≢ ok (some hit)))
        ⊎ ((d.0 ≡ ok false) × (F.file d.1.fs q.body ≡ F.file w.fs q.body))
  lookup-purge k t w =
      let d = purge F P c (P.to_compact k) t w in
      elim (purge_ok F L P LP c k t w) [
        | inl (said, there, gone) ↦
            inl (said, there, gone, λ hit. lookup_missing F L P LP c k d.1 hit (inl gone))
        | inr kept ↦ inr kept
      ]

  not_found :
      (k : P.CacheKey) (t : PurgeType) (w : World F)
      → (purge F P c (P.to_compact k) t w).0 ≡ ok true
      → (hit : P.CacheMeta × DiskHitHandler F)
      → (lookup F P c k (purge F P c (P.to_compact k) t w).1).0 ≢ ok (some hit)
  not_found k t w said hit = elim (lookup-purge k t w) [
    | inl (yes_said, there, gone, missed) ↦ missed hit
    | inr (no_said, kept) ↦ absurd (cc (said, no_said))
  ]

  -- A lookup hits an entry that is stored and whose metadata can be read, and then a purge of the
  -- key answers true. No lookup hits the entry any more; and if the file system is then healthy, the
  -- handler of the earlier hit still serves the whole body: a run of reads ends and returns it.
  -- Fuel above the length of the body is enough.
  pub serve_all-purge :
      (IsHealthy : F.State → Type 0)
      → IsReliable F IsHealthy
      → (k : P.CacheKey) (t : PurgeType) (m m' : P.CacheMeta) (body a b : Bytes) (w : World F)
        (h : DiskHitHandler F) (fuel : ℕ)
      → Stored F P c (P.combined k) body a b w
      → P.deserialize a b ≡ ok m
      → (lookup F P c k w).0 ≡ ok (some (m', h))
      → (purge F P c (P.to_compact k) t (lookup F P c k w).1).0 ≡ ok true
      → IsHealthy (purge F P c (P.to_compact k) t (lookup F P c k w).1).1.fs
      → length body < fuel
      → let w' = (purge F P c (P.to_compact k) t (lookup F P c k w).1).1 in
        ((hit : P.CacheMeta × DiskHitHandler F) → (lookup F P c k w').0 ≢ ok (some hit))
        × (h' : DiskHitHandler F) × (w'' : World F) × (serve_all F fuel h w'
            ≡ some (ok body, h', w''))
  serve_all-purge IsHealthy R k t m m' body a b w h fuel stored back found said healthy more =
      let w1 = (lookup F P c k w).1 in
      let w' = (purge F P c (P.to_compact k) t w1).1 in
      let (same, sync, rest) = lookup_sound F L P LP c k m m' body a b w h stored back found in
      let (sync', left) = purge-InSync F L P LP c k t w1 h sync in
      let whole = length-remaining F h w' sync' in
      let all : remaining F h w' ≡ body = left ∙ rest in
      let enough : h.range_end - next_pos F h < fuel = omega (arith, ap length all, whole) in
      let (h', w'', served) = serve_all_healthy F IsHealthy R L fuel h w' healthy sync' enough in
      (not_found k t w1 said, h', w'', served ∙ ap (λ bs. some (ok bs, h', w'')) all)
