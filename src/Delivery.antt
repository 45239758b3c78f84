-- ===== src/Delivery.antt =====
-- A request from its session to the disk: pingora asks the proxy (src/proxy.rs) whether the cache
-- is used and for the key, and on a miss whether the response may be kept, and calls the tiers
-- (src/tiered/mod.rs) for the answer. `CacheKey::new` and `CacheMeta::new` are parameters.
pub mod Kept
pub mod Hit
pub mod Admission
mod Tests
use edge_cdn_store.Common.{ℕ, List, Option, none, some, if◌then◌else◌}
use edge_cdn_store.Common.Text.{Text}
use edge_cdn_store.Common.State.{M, pure, ◌>>=◌}
use edge_cdn_store.Disk.Files.{Bytes, FileSystem}
use edge_cdn_store.Disk.World.{World, CacheTypes}
use edge_cdn_store.Disk.Paths.{DiskCache}
use edge_cdn_store.Disk.Miss.{Stamp, MissFinishType, finish}
use edge_cdn_store.Disk.Miss.Write.{write_pieces}
use edge_cdn_store.Disk.Hit.{DiskHitHandler}
use edge_cdn_store.Disk.Store.{raise}
use edge_cdn_store.Proxy.{
  Session, EdgeCdnProxy, RespCacheable, cacheable, non_success, origin_not_cache,
  request_cache_filter, cache_key_callback, response_cache_filter,
}
use edge_cdn_store.Tiered.{tiered_cache, tiered_lookup, tiered_get_miss_handler}

-- What the origin answers: the status, the Cache-Control header if it is text, and the body.
pub record Answer : Type 0 where
  pub status : ℕ
  pub cache_control : Option Text
  pub body : List Bytes

-- The text of the key, where the request may use the cache.
abbrev pub cached_key {ℓ} : {W : Type ℓ} → EdgeCdnProxy → Session → M W (Option Text)
cached_key x s =
    if request_cache_filter x s
    then (do key ← raise (cache_key_callback x s); pure (some key))
    else pure none

module _ (F : FileSystem) (P : CacheTypes) (c : DiskCache) (new_key : Text → P.CacheKey)
    (new_meta : Answer → ℕ → ℕ → P.CacheMeta) (x : EdgeCdnProxy) where
  find_at : Stamp → Option Text → M (World F) (Option (P.CacheMeta × DiskHitHandler F))
  find_at t none = pure none
  find_at t (some key) = tiered_lookup (tiered_cache F P c t) (new_key key)

  -- The cache is asked for the response.
  unfoldable pub find_response :
      Stamp → Session → M (World F) (Option (P.CacheMeta × DiskHitHandler F))
  unfolding find_at
  find_response t s = do key ← cached_key x s; find_at t key

  keep_at : Stamp → Answer → Option Text → RespCacheable → M (World F) (Option MissFinishType)
  keep_at t a none _ = pure none
  keep_at t a (some key) non_success = pure none
  keep_at t a (some key) origin_not_cache = pure none
  keep_at t a (some key) (cacheable expiry created) = do
    h ← tiered_get_miss_handler (tiered_cache F P c t) (new_key key) (new_meta a expiry created)
    h' ← write_pieces F (a.body) h
    r ← finish F h'
    pure (some r)

  -- The answer of the origin is kept, if the proxy admits it.
  unfoldable pub keep_response : Stamp → ℕ → Session → Answer → M (World F) (Option MissFinishType)
  unfolding keep_at
  keep_response t now s a = do
    key ← cached_key x s
    keep_at t a key (response_cache_filter a.status a.cache_control now)
