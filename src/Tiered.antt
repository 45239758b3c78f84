-- ===== src/Tiered.antt =====
-- Tiered storage (src/tiered/mod.rs): a primary cache and an optional secondary one behind the
-- storage interface of pingora_cache.
pub mod Order
pub mod Deployed
pub mod FanOut
mod Tests
use edge_cdn_store.Common.{Bool, true, false, ◌||◌, Option, none, some, Result, ok, err}
use edge_cdn_store.Common.State.{M, pure, ◌>>=◌, ErrorType, Failure, error, panicked}
use edge_cdn_store.Disk.Files.{FileSystem}
use edge_cdn_store.Disk.World.{World, CacheTypes}
use edge_cdn_store.Disk.Paths.{DiskCache}
use edge_cdn_store.Disk.Miss.{DiskMissHandler, Stamp}
use edge_cdn_store.Disk.Hit.{DiskHitHandler}
use edge_cdn_store.Disk.Store.{
  PurgeType, eviction, invalidation, lookup, get_miss_handler, purge, update_meta,
}

-- The trait `Storage`, over the state that all tiers work on and the types of the handlers.
pub record Storage (W : Type 0) (P : CacheTypes) (HitHandler MissHandler : Type 0) : Type 0 where
  pub find : P.CacheKey → M W (Option (P.CacheMeta × HitHandler))
  pub miss_handler : P.CacheKey → P.CacheMeta → M W MissHandler
  pub remove : P.CompactCacheKey → PurgeType → M W Bool
  pub rewrite : P.CacheKey → P.CacheMeta → M W Bool

pub data WritePolicy : Type 0 where
  primary_only write_through_both : WritePolicy

-- The error of a call as a value. A panic is not caught.
abbrev pub settle : {W A : Type 0} → Result Failure A → M W (Result ErrorType A)
settle (ok a) v = (ok (ok a), v)
settle (err (error e)) v = (ok (err e), v)
settle (err panicked) v = (err panicked, v)

abbrev pub attempt : {W A : Type 0} → M W A → M W (Result ErrorType A)
attempt m w = settle (m w).0 (m w).1

-- `unwrap_or_default`, and the flag that a failed call leaves alone.
abbrev pub ok_or_false : Result ErrorType Bool → Bool
ok_or_false (ok b) = b
ok_or_false (err e) = false

module _ (W : Type 0) (P : CacheTypes) (HitHandler MissHandler : Type 0) where
  pub record TieredStorage : Type 0 where
    pub primary : Storage W P HitHandler MissHandler
    pub secondary : Option (Storage W P HitHandler MissHandler)
    pub write_policy : WritePolicy

module _ {W : Type 0} {P : CacheTypes} {HitHandler MissHandler : Type 0} where
  or_secondary :
      P.CacheKey
      → Option (Storage W P HitHandler MissHandler)
      → Option (P.CacheMeta × HitHandler)
      → M W (Option (P.CacheMeta × HitHandler))
  or_secondary key sec (some hit) = pure (some hit)
  or_secondary key none none = pure none
  or_secondary key (some sec) none = sec.find key

  unfoldable pub tiered_lookup :
      TieredStorage W P HitHandler MissHandler
      → P.CacheKey
      → M W (Option (P.CacheMeta × HitHandler))
  unfolding or_secondary
  tiered_lookup t key = do hit ← t.primary.find key; or_secondary key t.secondary hit

  -- The write policy chooses between two arms that both return the primary's handler.
  admitted : WritePolicy → Option (Storage W P HitHandler MissHandler) → MissHandler → MissHandler
  admitted primary_only sec h = h
  admitted write_through_both none h = h
  admitted write_through_both (some sec) h = h

  unfoldable pub tiered_get_miss_handler :
      TieredStorage W P HitHandler MissHandler → P.CacheKey → P.CacheMeta → M W MissHandler
  unfolding admitted
  tiered_get_miss_handler t key meta = do
    primary_miss ← t.primary.miss_handler key meta
    pure (admitted t.write_policy t.secondary primary_miss)

  invalidate_secondary :
      Option (Storage W P HitHandler MissHandler) → P.CompactCacheKey → Bool → M W Bool
  invalidate_secondary none key existed = pure existed
  invalidate_secondary (some sec) key existed = do
    r ← attempt (sec.remove key invalidation)
    pure (existed || ok_or_false r)

  unfoldable pub tiered_purge :
      TieredStorage W P HitHandler MissHandler → P.CompactCacheKey → PurgeType → M W Bool
  unfolding invalidate_secondary
  tiered_purge t key eviction = do r ← attempt (t.primary.remove key eviction); pure (ok_or_false r)
  tiered_purge t key invalidation = do
    r ← attempt (t.primary.remove key invalidation)
    invalidate_secondary t.secondary key (ok_or_false r)

  mirror_meta :
      Option (Storage W P HitHandler MissHandler) → P.CacheKey → P.CacheMeta → Bool → M W Bool
  mirror_meta none key meta updated = pure updated
  mirror_meta (some sec) key meta updated = do
    r ← attempt (sec.rewrite key meta)
    pure (updated || ok_or_false r)

  unfoldable pub tiered_update_meta :
      TieredStorage W P HitHandler MissHandler → P.CacheKey → P.CacheMeta → M W Bool
  unfolding mirror_meta
  tiered_update_meta t key meta = do
    updated ← t.primary.rewrite key meta
    mirror_meta t.secondary key meta updated

-- The disk cache as a tier, at the moment of a stamp.
abbrev pub disk_storage :
    (F : FileSystem) (P : CacheTypes)
    → DiskCache
    → Stamp
    → Storage (World F) P (DiskHitHandler F) DiskMissHandler
disk_storage F P c t = record {
  find = lookup F P c;
  miss_handler = λ key meta. get_miss_handler F P c key meta t;
  remove = purge F P c;
  rewrite = update_meta F P c;
}

-- The storage that the server runs with.
abbrev pub tiered_cache :
    (F : FileSystem) (P : CacheTypes)
    → DiskCache
    → Stamp
    → TieredStorage (World F) P (DiskHitHandler F) DiskMissHandler
tiered_cache F P c t = record {
  primary = disk_storage F P c t;
  secondary = none;
  write_policy = primary_only;
}
