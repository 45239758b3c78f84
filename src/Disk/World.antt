-- ===== src/Disk/World.antt =====
-- What the disk cache shares: its metrics (metrics.rs) and the file system; and the types of
-- pingora_cache that it handles without looking inside.
use edge_cdn_store.Common.{ℕ, ◌+◌, ◌-◌, ◌%◌, ◌^◌, ◌≡◌, ◌≤◌, Result, ok, length}
use edge_cdn_store.Common.State.{M, ErrorType}
use edge_cdn_store.Disk.Files.{Bytes, FileSystem, IoError}

abbrev pub u64_mod : ℕ
u64_mod = 2 ^ 64

-- Counters are 64-bit numbers. The gauge is an `i64`, kept as its 64-bit pattern, so that the
-- casts between `i64` and `u64` change nothing.
pub record CacheMetrics : Type 0 where
  pub lookup_hits : ℕ
  pub served_hits : ℕ
  pub misses : ℕ
  pub inserts : ℕ
  pub purge_attempts : ℕ
  pub evictions : ℕ
  pub evicted_bytes : ℕ
  pub size_bytes : ℕ

-- `IntCounter::inc` and `inc_by`, `IntGauge::add` and `sub`.
abbrev pub inc_by : ℕ → ℕ → ℕ
inc_by n x = (x + n) % u64_mod

abbrev pub inc : ℕ → ℕ
inc = inc_by 1

abbrev pub gauge_sub : ℕ → ℕ → ℕ
gauge_sub n x = (x + (u64_mod - n % u64_mod)) % u64_mod

-- What `CacheMetrics::new` makes, once the metrics are registered (Disk/Registry).
unfoldable pub new_metrics : ℕ → CacheMetrics
new_metrics size_bytes = record {
  lookup_hits = 0;
  served_hits = 0;
  misses = 0;
  inserts = 0;
  purge_attempts = 0;
  evictions = 0;
  evicted_bytes = 0;
  size_bytes = size_bytes % u64_mod;
}

-- The types of pingora_cache. `combined` is the hash of a key, a hexadecimal text.
pub record CacheTypes : Type 1 where
  pub CacheKey : Type 0
  pub CompactCacheKey : Type 0
  pub CacheMeta : Type 0
  pub combined : CacheKey → Bytes
  pub compact_combined : CompactCacheKey → Bytes
  pub to_compact : CacheKey → CompactCacheKey
  pub serialize : CacheMeta → Result ErrorType (Bytes × Bytes)
  pub deserialize : Bytes → Bytes → Result ErrorType CacheMeta

-- What the cache relies on: a key and its compact form have one hash, long enough for the two
-- levels of directories, and metadata can be read back.
pub record IsLawfulTypes (P : CacheTypes) : Type 0 where
  pub combined-to_compact : (k : P.CacheKey) → P.compact_combined (P.to_compact k) ≡ P.combined k
  pub combined_long : (k : P.CacheKey) → 4 ≤ length (P.combined k)
  pub deserialize-serialize :
      (m : P.CacheMeta) (a b : Bytes) → P.serialize m ≡ ok (a, b) → P.deserialize a b ≡ ok m

module _ (F : FileSystem) where
  pub record World : Type 0 where
    pub fs : F.State
    pub metrics : CacheMetrics

module _ {F : FileSystem} where
  -- A file system call whose result the code looks at.
  abbrev pub io :
      {A : Type 0} → (F.State → Result IoError A × F.State) → M (World F) (Result IoError A)
  io op w = (ok (op w.fs).0, record w { fs = (op w.fs).1 })

  abbrev pub count : (CacheMetrics → CacheMetrics) → M (World F) (Unit {0})
  count f w = (ok tt, record w { metrics = f w.metrics })
