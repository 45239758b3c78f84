-- ===== src/Tiered/Deployed.antt =====
-- The tiers that the server runs with: the disk cache alone.
use edge_cdn_store.Common.{◌≡◌, Bool, true, false, ok, inl, inr}
use edge_cdn_store.Disk.Files.{FileSystem, IsLawful}
use edge_cdn_store.Disk.World.{World, CacheTypes, IsLawfulTypes}
use edge_cdn_store.Disk.Paths.{DiskCache}
use edge_cdn_store.Disk.Miss.{Stamp}
use edge_cdn_store.Disk.Store.{PurgeType, lookup, get_miss_handler, purge, update_meta}
use edge_cdn_store.Disk.Store.Purge.{purge_ok}
use edge_cdn_store.Tiered.{
  tiered_cache, primary_only, tiered_lookup, tiered_get_miss_handler, tiered_purge,
  tiered_update_meta,
}
use edge_cdn_store.Tiered.Order.{
  tiered_get_miss_handler_policy, tiered_lookup-alone, tiered_purge-alone, tiered_update_meta-alone,
}

module _ (F : FileSystem) (L : IsLawful F) (P : CacheTypes) (LP : IsLawfulTypes P) (c : DiskCache)
    (t : Stamp) where
  purge_says :
      (k : P.CacheKey) (p : PurgeType) (w : World F)
      → (existed : Bool) × ((purge F P c (P.to_compact k) p w).0 ≡ ok existed)
  purge_says k p w = elim (purge_ok F L P LP c k p w) [
    | inl (e, _, _) ↦ (true, e)
    | inr (e, _) ↦ (false, e)
  ]

  -- The deployed tiers are the disk cache: each of the four operations returns what the disk
  -- cache returns and leaves the world in the same state.
  pub tiered_cache-refines :
      (k : P.CacheKey) (m : P.CacheMeta) (p : PurgeType) (w : World F)
      → (tiered_lookup (tiered_cache F P c t) k w ≡ lookup F P c k w)
        × (tiered_get_miss_handler (tiered_cache F P c t) k m w ≡ get_miss_handler F P c k m t w)
        × (tiered_purge (tiered_cache F P c t) (P.to_compact k) p w
            ≡ purge F P c (P.to_compact k) p w)
        × (tiered_update_meta (tiered_cache F P c t) k m w ≡ update_meta F P c k m w)
  tiered_cache-refines k m p w =
      let tiers = tiered_cache F P c t in
      let (existed, said) = purge_says k p w in
      (
        tiered_lookup-alone tiers k w,
        tiered_get_miss_handler_policy tiers primary_only k m w,
        tiered_purge-alone tiers (P.to_compact k) p w existed said,
        tiered_update_meta-alone tiers k m w,
      )
