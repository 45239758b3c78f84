-- ===== src/Disk/Statistics/ColdStart.antt =====
-- A start without a statistics file (src/disk_cache/mod.rs, `DiskCache::new`), and a purge of an
-- entry that is on disk from before.
use edge_cdn_store.Common.{ℕ, ◌-◌, ◌<◌, ◌≡◌, ◌∙◌, ap, some, true, ok, err, is_ok, length, arith}
use edge_cdn_store.Disk.Files.{Bytes, FilePath, FileSystem, IsLawful, IsReliable, IoError}
use edge_cdn_store.Disk.World.{CacheMetrics, CacheTypes, IsLawfulTypes, new_metrics, u64_mod}
use edge_cdn_store.Disk.Paths.{entry_paths}
use edge_cdn_store.Disk.Store.{PurgeType, purge}
use edge_cdn_store.Disk.Store.Purge.{purge_metrics}
use edge_cdn_store.Disk.Statistics.{
  CacheStatistics, Json, statistics_of, fetch_cache_state, new_cache,
}
use edge_cdn_store.Disk.Statistics.Restart.{IsLawfulJson, new_cache_frame, statistics_of_size}

module _ (F : FileSystem) (L : IsLawful F) (J : Json F) (IsHealthy : F.State → Type 0)
    (R : IsReliable F IsHealthy) (LJ : IsLawfulJson F J IsHealthy) (P : CacheTypes)
    (LP : IsLawfulTypes P) where
  new_cache-err :
      (root : FilePath) (now : ℕ) (s : F.State) (x : IoError)
      → (fetch_cache_state F J root s).0 ≡ err x
      → (new_cache F J root now s).1.metrics ≡ new_metrics 0
  unfolding new_cache
  new_cache-err root now s x e = ground arith

  -- After a start that could not read the statistics, a purge that removes a body from before the
  -- start, not empty, shorter than 2^64 and of a length that could be read, takes the gauge below
  -- zero: the statistics made next give 2^64 less that length as the size.
  pub new_cache-purge :
      (root : FilePath) (now now' max_bytes : ℕ) (s : F.State) (x : IoError) (k : P.CacheKey)
      (t : PurgeType) (body : Bytes) (cs : CacheStatistics)
      → (fetch_cache_state F J root s).0 ≡ err x
      → F.file s (entry_paths (new_cache F J root now s).0 (P.combined k)).body ≡ some body
      → 0 < length body
      → length body < u64_mod
      → is_ok
          (F.metadata_len
            (entry_paths (new_cache F J root now s).0 (P.combined k)).body
            (new_cache F J root now s).1.fs).0
        ≡ true
      → (purge F P (new_cache F J root now s).0 (P.to_compact k) t (new_cache F J root now s).1).0
        ≡ ok true
      → (statistics_of F J
          (new_cache F J root now s).0
          max_bytes
          now'
          (purge F P
            (new_cache F J root now s).0
            (P.to_compact k)
            t
            (new_cache F J root now s).1).1).0
        ≡ ok cs
      → cs.size_bytes_current ≡ u64_mod - length body
  unfolding new_metrics
  new_cache-purge root now now' max_bytes s x k t body cs failed there some_bytes small measured
        purged made =
      let d = new_cache F J root now s in
      let there' =
        new_cache_frame F L J IsHealthy R LJ root (entry_paths d.0 (P.combined k)).body now s
        ∙ there in
      let counted = purge_metrics F L P LP d.0 k t d.1 body there' measured purged in
      let zero = ap (λ (m : CacheMetrics). m.size_bytes) (new_cache-err root now s x failed) in
      let shown = statistics_of_size F L J IsHealthy R LJ d.0 max_bytes now' _ cs made in
      let gauge = ap (λ (m : CacheMetrics). m.size_bytes) counted in
      omega (arith, shown, gauge, zero, some_bytes, small)
