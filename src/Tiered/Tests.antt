-- ===== src/Tiered/Tests.antt =====
-- The theorems on tiers, for two disk caches in different directories of one file system.
use edge_cdn_store.Common.{◌≡◌, refl, ◌≢◌, ◌⊎◌, ◌||◌, ◌∷◌, [], Bool, some, ok, err}
use edge_cdn_store.Common.Text.{codes}
use edge_cdn_store.Common.State.{Failure, panicked}
use edge_cdn_store.Disk.Files.Memory.{memory, memory-IsLawful, path_eq}
use edge_cdn_store.Disk.World.{World}
use edge_cdn_store.Disk.Paths.{DiskCache, path_from_hash, path_from_key, path_from_compact_key}
use edge_cdn_store.Disk.Miss.{DiskMissHandler}
use edge_cdn_store.Disk.Hit.{DiskHitHandler}
use edge_cdn_store.Disk.Store.{eviction, invalidation, lookup, get_miss_handler, purge, update_meta}
use edge_cdn_store.Disk.Samples.{types, types-IsLawful, cache, stamp, empty, page}
use edge_cdn_store.Tiered.{
  Storage, TieredStorage, write_through_both, disk_storage, tiered_cache, tiered_lookup,
  tiered_get_miss_handler, tiered_purge, tiered_update_meta,
}
use edge_cdn_store.Tiered.Order.{said, tiered_purge_invalidation, tiered_update_meta_order}
use edge_cdn_store.Tiered.Deployed.{tiered_cache-refines}

abbrev cold_cache : DiskCache
cold_cache = record { root = codes "cold" ∷ []; start_time = 0; uptime = 0 }

abbrev hot : Storage (World memory) types (DiskHitHandler memory) DiskMissHandler
hot = disk_storage memory types cache stamp

abbrev cold : Storage (World memory) types (DiskHitHandler memory) DiskMissHandler
cold = disk_storage memory types cold_cache stamp

abbrev tiers : TieredStorage (World memory) types (DiskHitHandler memory) DiskMissHandler
tiers = record { primary = hot; secondary = some cold; write_policy = write_through_both }

purged_now : (purge memory types cache [] invalidation empty).0 ≢ err panicked
unfolding purge path_from_compact_key path_from_hash path_eq
purged_now e = absurd (cc e)

purged_next :
    (purge memory types cold_cache [] invalidation
      (purge memory types cache [] invalidation empty).1).0
    ≢ err panicked
unfolding purge path_from_compact_key path_from_hash path_eq
purged_next e = absurd (cc e)

tiered_purge_invalidation_example :
    let d =
      purge memory types cold_cache [] invalidation
        (purge memory types cache [] invalidation empty).1 in
    tiered_purge tiers [] invalidation empty
    ≡ (ok (said (purge memory types cache [] invalidation empty).0 || said d.0), d.1)
tiered_purge_invalidation_example =
    tiered_purge_invalidation tiers cold refl [] empty purged_now purged_next

unchanged_next :
    (update_meta memory types cold_cache [] page (update_meta memory types cache [] page empty).1).0
    ≢ err panicked
unfolding update_meta path_from_key path_from_hash path_eq
unchanged_next e = absurd (cc e)

tiered_update_meta_order_example :
    let d = update_meta memory types cache [] page empty in
    let d' = update_meta memory types cold_cache [] page d.1 in
    ((e : Failure) × (d.0 ≡ err e) × (tiered_update_meta tiers [] page empty ≡ (err e, d.1)))
    ⊎ ((updated : Bool) × (d.0 ≡ ok updated)
        × (tiered_update_meta tiers [] page empty ≡ (ok (updated || said d'.0), d'.1)))
tiered_update_meta_order_example =
    tiered_update_meta_order tiers cold refl [] page empty unchanged_next

tiered_cache-refines_example :
    (tiered_lookup (tiered_cache memory types cache stamp) [] empty
      ≡ lookup memory types cache [] empty)
    × (tiered_get_miss_handler (tiered_cache memory types cache stamp) [] page empty
        ≡ get_miss_handler memory types cache [] page stamp empty)
    × (tiered_purge (tiered_cache memory types cache stamp) [] eviction empty
        ≡ purge memory types cache [] eviction empty)
    × (tiered_update_meta (tiered_cache memory types cache stamp) [] page empty
        ≡ update_meta memory types cache [] page empty)
tiered_cache-refines_example =
    tiered_cache-refines memory memory-IsLawful types types-IsLawful cache stamp [] page eviction
      empty
