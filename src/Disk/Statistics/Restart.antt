-- ===== src/Disk/Statistics/Restart.antt =====
-- A shutdown and a restart: the gauge comes back, and so do the entries.
use edge_cdn_store.Common.{
  ℕ, ◌<◌, ◌≡◌, ◌≢◌, ◌∙◌, ap, some, ok, is_ok, true, length, arith, Result-cases, inl, inr,
}
use edge_cdn_store.Disk.Files.{Bytes, FilePath, FileSystem, IsLawful, IsReliable}
use edge_cdn_store.Disk.World.{World, CacheTypes, IsLawfulTypes, new_metrics, u64_mod}
use edge_cdn_store.Disk.Paths.{DiskCache, entry_paths}
use edge_cdn_store.Disk.Paths.Separate.{
  InEntry, in_body, in_meta, in_hdr, InEntry-file_name, file_name,
}
use edge_cdn_store.Disk.Hit.{DiskHitHandler}
use edge_cdn_store.Disk.Hit.Serve.{serve_all}
use edge_cdn_store.Disk.Store.{lookup}
use edge_cdn_store.Disk.Store.Insert.{Stored}
use edge_cdn_store.Disk.Store.RoundTrip.{serve_all-Stored}
use edge_cdn_store.Disk.Statistics.{
  CacheStatistics, Json, state_path, statistics_of, persist, fetch_cache_state, new_cache,
}

-- What is relied on of serde_json: reading changes no file, and on a healthy file system what was
-- serialized is read back.
pub record IsLawfulJson (F : FileSystem) (J : Json F) (IsHealthy : F.State → Type 0) : Type 0 where
  pub file-from_reader :
      (h : F.Handle) (p : FilePath) (s : F.State) → F.file (J.from_reader h s).1 p ≡ F.file s p
  pub from_reader-to_string_pretty :
      (h : F.Handle) (cs : CacheStatistics) (json : Bytes) (s : F.State)
      → IsHealthy s
      → J.to_string_pretty cs ≡ some json
      → F.content s h ≡ json
      → F.cursor s h ≡ 0
      → (J.from_reader h s).0 ≡ ok cs

InEntry-ne-state_path :
    {c : DiskCache} {h : Bytes} {p : FilePath} (root : FilePath)
    → InEntry c h p
    → p ≢ state_path root
InEntry-ne-state_path root i e =
    absurd (omega (arith, InEntry-file_name i, ap (λ q. length (file_name q)) e))

module _ (F : FileSystem) (L : IsLawful F) (J : Json F) (IsHealthy : F.State → Type 0)
    (R : IsReliable F IsHealthy) (LJ : IsLawfulJson F J IsHealthy) where
  persist_frame :
      (c : DiskCache) (max_bytes now : ℕ) (w : World F) (p : FilePath)
      → p ≢ state_path c.root
      → F.file (persist F J c max_bytes now w).1.fs p ≡ F.file w.fs p
  unfolding persist statistics_of
  persist_frame c max_bytes now w p n = grind (arith, L.file-write_ne)

  pub new_cache_frame :
      (root p : FilePath) (now : ℕ) (s : F.State)
      → F.file (new_cache F J root now s).1.fs p ≡ F.file s p
  unfolding new_cache fetch_cache_state
  new_cache_frame root p now s = grind (arith, L.file-open_file, LJ.file-from_reader)

  fetch_cache_state-stored :
      (root : FilePath) (cs : CacheStatistics) (json : Bytes) (s : F.State)
      → IsHealthy s
      → J.to_string_pretty cs ≡ some json
      → F.file s (state_path root) ≡ some json
      → (fetch_cache_state F J root s).0 ≡ ok cs
  unfolding fetch_cache_state
  fetch_cache_state-stored root cs json s healthy text there =
      let (later, opened) = R.open_file-IsHealthy (state_path root) s json healthy there in
      elim (Result-cases (F.open_file (state_path root) s).0) [
        | inr (x, failed) ↦ absurd (ground arith)
        | inl (h, e) ↦
            let (kept, start) = L.open_file_ok (state_path root) s h e in
            let same : F.content (F.open_file (state_path root) s).1 h ≡ json = ground arith in
            rw e (
              LJ.from_reader-to_string_pretty h cs json (F.open_file (state_path root) s).1 later
                text same start)
      ]

  pub statistics_of_size :
      (c : DiskCache) (max_bytes now : ℕ) (w : World F) (cs : CacheStatistics)
      → (statistics_of F J c max_bytes now w).0 ≡ ok cs
      → cs.size_bytes_current ≡ w.metrics.size_bytes
  unfolding statistics_of
  statistics_of_size c max_bytes now w cs said = ground arith

  persist_ok :
      (c : DiskCache) (max_bytes now : ℕ) (w : World F) (cs : CacheStatistics) (json : Bytes)
      → (statistics_of F J c max_bytes now w).0 ≡ ok cs
      → J.to_string_pretty cs ≡ some json
      → is_ok (F.write (state_path c.root) json w.fs).0 ≡ true
      → F.file (persist F J c max_bytes now w).1.fs (state_path c.root) ≡ some json
  unfolding persist statistics_of
  persist_ok c max_bytes now w cs json said text wrote =
      ground (arith, L.write_ok (state_path c.root) json w.fs)

  -- A shutdown that was signalled, by a clock that was not put back, and whose statistics could be
  -- serialized and written; then a restart on a healthy file system. The gauge has the value that
  -- it had, and the counters start at zero.
  pub new_cache-persist :
      (c : DiskCache) (max_bytes now now' : ℕ) (w : World F) (cs : CacheStatistics) (json : Bytes)
      → (statistics_of F J c max_bytes now w).0 ≡ ok cs
      → J.to_string_pretty cs ≡ some json
      → is_ok (F.write (state_path c.root) json w.fs).0 ≡ true
      → IsHealthy (persist F J c max_bytes now w).1.fs
      → w.metrics.size_bytes < u64_mod
      → (new_cache F J c.root now' (persist F J c max_bytes now w).1.fs).1.metrics
        ≡ record (new_metrics 0) { size_bytes = w.metrics.size_bytes }
  unfolding new_cache new_metrics
  new_cache-persist c max_bytes now now' w cs json said text wrote healthy small =
      let found =
        fetch_cache_state-stored c.root cs json _ healthy text
          (persist_ok c max_bytes now w cs json said text wrote) in
      let size = statistics_of_size c max_bytes now w cs said in rw found (ground arith)

  -- An entry that is stored is stored after the shutdown and the restart, whether the statistics
  -- were written and read or not.
  pub Stored-new_cache :
      (P : CacheTypes) (c : DiskCache) (max_bytes now now' : ℕ) (w : World F)
      (hash body a b : Bytes)
      → Stored F P c hash body a b w
      → let d = new_cache F J c.root now' (persist F J c max_bytes now w).1.fs in
        Stored F P d.0 hash body a b d.1
  unfolding new_cache
  Stored-new_cache P c max_bytes now now' w hash body a b st =
      let keep = λ (p : FilePath) (i : InEntry c hash p).
        new_cache_frame c.root p now' (persist F J c max_bytes now w).1.fs
        ∙ persist_frame c max_bytes now w p (InEntry-ne-state_path c.root i) in
      record {
        body_stored = keep (entry_paths c hash).body in_body ∙ st.body_stored;
        meta_stored = keep (entry_paths c hash).meta in_meta ∙ st.meta_stored;
        hdr_stored = keep (entry_paths c hash).hdr in_hdr ∙ st.hdr_stored;
      }

  -- An entry that is stored before a shutdown, and whose metadata can be read, is served after the
  -- restart, whether the statistics were written and read or not: if the file system is healthy
  -- then, a lookup is a hit with the metadata, and a run of reads ends and returns the body. Fuel
  -- above the length of the body is enough.
  pub serve_all-new_cache :
      (P : CacheTypes) (LP : IsLawfulTypes P) (c : DiskCache) (max_bytes now now' : ℕ) (w : World F)
      (k : P.CacheKey) (m : P.CacheMeta) (body a b : Bytes) (fuel : ℕ)
      → Stored F P c (P.combined k) body a b w
      → P.deserialize a b ≡ ok m
      → IsHealthy (new_cache F J c.root now' (persist F J c max_bytes now w).1.fs).1.fs
      → length body < fuel
      → let e = new_cache F J c.root now' (persist F J c max_bytes now w).1.fs in
        let d = lookup F P e.0 k e.1 in
        (h : DiskHitHandler F) × (h' : DiskHitHandler F) × (w' : World F) × (d.0 ≡ ok (some (m, h)))
        × (serve_all F fuel h d.1 ≡ some (ok body, h', w'))
  serve_all-new_cache P LP c max_bytes now now' w k m body a b fuel st back healthy more =
      let e = new_cache F J c.root now' (persist F J c max_bytes now w).1.fs in
      serve_all-Stored F L P LP e.0 IsHealthy R k m body a b e.1 fuel healthy
        (Stored-new_cache P c max_bytes now now' w (P.combined k) body a b st) back more
