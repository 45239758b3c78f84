-- ===== src/Disk/Store/Purge.antt =====
-- Removing an entry, and rewriting its metadata.
use edge_cdn_store.Common.{
  ℕ, ◌-◌, ◌≡◌, ◌≢◌, ◌∙◌, ap, some, none, true, false, Result, ok, length, arith, Result-cases, inl,
  inr, is_ok, ◌⊎◌, take, drop,
}
use edge_cdn_store.Disk.Files.{Bytes, FilePath, IoError, FileSystem, IsLawful}
use edge_cdn_store.Disk.World.{World, CacheTypes, IsLawfulTypes, inc, inc_by, gauge_sub}
use edge_cdn_store.Disk.Paths.{
  DiskCache, EntryPaths, entry_paths, path_from_hash, path_from_compact_key,
}
use edge_cdn_store.Disk.Paths.Separate.{
  InEntry, IsElsewhere, InEntry-IsElsewhere, body-ne-meta, body-ne-hdr,
}
use edge_cdn_store.Disk.Hit.{DiskHitHandler}
use edge_cdn_store.Disk.Hit.Read.{InSync, remaining, next_pos}
use edge_cdn_store.Disk.Store.{PurgeType, purge}

still_placed {ℓ} : {A : Type ℓ} {n n' m : ℕ} → A ⊎ (n ≡ m) → n' ≡ n → A ⊎ (n' ≡ m)
still_placed (inl a) e = inl a
still_placed (inr p) e = inr (e ∙ p)

module _ (F : FileSystem) (L : IsLawful F) (P : CacheTypes) (LP : IsLawfulTypes P)
    (c : DiskCache) where
  abbrev paths : P.CacheKey → EntryPaths
  paths k = entry_paths c (P.combined k)

  compact_paths : (k : P.CacheKey) → path_from_compact_key P c (P.to_compact k) ≡ ok (paths k)
  unfolding path_from_compact_key path_from_hash
  compact_paths k = ground (arith, LP.combined-to_compact k, LP.combined_long k)

  -- The states between the calls of `purge`.
  abbrev measured : P.CacheKey → World F → F.State
  measured k w = (F.metadata_len (paths k).body w.fs).1

  abbrev removal : P.CacheKey → World F → Result IoError (Unit {0}) × F.State
  removal k w = F.remove_file (paths k).body (measured k w)

  abbrev emptied : P.CacheKey → World F → F.State
  emptied k w =
      (F.remove_dir (paths k).dir
        (F.remove_file (paths k).hdr (F.remove_file (paths k).meta (removal k w).1).1).1).1

  -- A purge always returns, and says whether the body could be removed.
  purge_lem :
      (k : P.CacheKey) (t : PurgeType) (w : World F)
      → ((purge F P c (P.to_compact k) t w).0 ≡ ok (is_ok (removal k w).0))
        × ((purge F P c (P.to_compact k) t w).1.fs ≡ emptied k w)
  unfolding purge
  purge_lem k t w = ground (arith, compact_paths k)

  reader_kept :
      (k : P.CacheKey) (w : World F) (h : F.Handle)
      → (F.content (emptied k w) h ≡ F.content w.fs h)
        × (F.cursor (emptied k w) h ≡ F.cursor w.fs h)
  reader_kept k w h = (
    rw (
      L.content-remove_dir, L.content-remove_file, L.content-remove_file, L.content-remove_file,
      L.content-metadata_len,
    ),
    rw (
      L.cursor-remove_dir, L.cursor-remove_file, L.cursor-remove_file, L.cursor-remove_file,
      L.cursor-metadata_len,
    ),
  )

  body_after :
      (k : P.CacheKey) (w : World F)
      → F.file (emptied k w) (paths k).body ≡ F.file (removal k w).1 (paths k).body
  body_after k w = rw (
    L.file-remove_dir,
    L.file-remove_file_ne _ (paths k).body _ (body-ne-hdr c (P.combined k)),
    L.file-remove_file_ne _ (paths k).body _ (body-ne-meta c (P.combined k)),
  )

  removal_failed :
      (k : P.CacheKey) (w : World F)
      → is_ok (removal k w).0 ≡ false
      → F.file (removal k w).1 (paths k).body ≡ F.file (measured k w) (paths k).body
  removal_failed k w e = elim (Result-cases (removal k w).0) [
    | inl (x, removed) ↦ absurd (ground arith)
    | inr (x, failed) ↦ L.remove_file_err (paths k).body (paths k).body (measured k w) x failed
  ]

  -- A purge always returns. If it answers `true`, the body was there and is gone; if it answers
  -- `false`, the body is what it was before.
  pub purge_ok :
      (k : P.CacheKey) (t : PurgeType) (w : World F)
      → let q = entry_paths c (P.combined k) in
        let d = purge F P c (P.to_compact k) t w in
        ((d.0 ≡ ok true) × (F.file w.fs q.body ≢ none) × (F.file d.1.fs q.body ≡ none))
        ⊎ ((d.0 ≡ ok false) × (F.file d.1.fs q.body ≡ F.file w.fs q.body))
  purge_ok k t w =
      let q = paths k in
      ground (
        arith,
        purge_lem k t w,
        ap (λ s. F.file s q.body) (purge_lem k t w).1,
        body_after k w,
        L.remove_file_ok q.body (measured k w),
        L.file-metadata_len q.body q.body w.fs,
        removal_failed k w,
      )

  -- A handler that is in step with its open file stays in step during a purge, and has the same
  -- bytes left to read.
  pub purge-InSync :
      (k : P.CacheKey) (t : PurgeType) (w : World F) (h : DiskHitHandler F)
      → InSync F h w
      → let w' = (purge F P c (P.to_compact k) t w).1 in
        InSync F h w' × (remaining F h w' ≡ remaining F h w)
  purge-InSync k t w h s =
      let kept = reader_kept k w h.file in
      let state = (purge_lem k t w).1 in
      let content : F.content (purge F P c (P.to_compact k) t w).1.fs h.file
          ≡ F.content w.fs h.file =
        ap (λ x. F.content x h.file) state ∙ kept.0 in
      let cursor : F.cursor (purge F P c (P.to_compact k) t w).1.fs h.file ≡ F.cursor w.fs h.file =
        ap (λ x. F.cursor x h.file) state ∙ kept.1 in
      (
        record {
          measured = ap length content ∙ s.measured;
          within = s.within;
          ordered = s.ordered;
          placed = still_placed (s.placed) cursor;
          chunked = s.chunked;
        },
        ap (λ xs. take (h.range_end - next_pos F h) (drop (next_pos F h) xs)) content,
      )

  -- It touches no file but the three of the entry.
  pub purge_frame_at :
      (k : P.CacheKey) (t : PurgeType) (w : World F) (p : FilePath)
      → IsElsewhere c (P.combined k) p
      → F.file (purge F P c (P.to_compact k) t w).1.fs p ≡ F.file w.fs p
  purge_frame_at k t w p e = rw (purge_lem k t w).1 (
      rw (
        L.file-remove_dir,
        L.file-remove_file_ne _ p _ e.not_hdr,
        L.file-remove_file_ne _ p _ e.not_meta,
        L.file-remove_file_ne _ p _ e.not_body,
        L.file-metadata_len,
      ))

  -- A purge touches no body, metadata or header file of an entry with another hash.
  pub purge_frame :
      (k : P.CacheKey) (t : PurgeType) (w : World F) (g : Bytes) (p : FilePath)
      → g ≢ P.combined k
      → InEntry c g p
      → F.file (purge F P c (P.to_compact k) t w).1.fs p ≡ F.file w.fs p
  purge_frame k t w g p n i = purge_frame_at k t w p (InEntry-IsElsewhere i n)

  -- A purge that answers `true`, for a body whose length could be read, counts one attempt, one
  -- eviction and the length of the body as evicted, and takes that length off the gauge.
  pub purge_metrics :
      (k : P.CacheKey) (t : PurgeType) (w : World F) (body : Bytes)
      → F.file w.fs (entry_paths c (P.combined k)).body ≡ some body
      → is_ok (F.metadata_len (entry_paths c (P.combined k)).body w.fs).0 ≡ true
      → (purge F P c (P.to_compact k) t w).0 ≡ ok true
      → (purge F P c (P.to_compact k) t w).1.metrics ≡ record (w.metrics) {
        purge_attempts = inc w.metrics.purge_attempts;
        evictions = inc w.metrics.evictions;
        evicted_bytes = inc_by (length body) w.metrics.evicted_bytes;
        size_bytes = gauge_sub (length body) w.metrics.size_bytes;
      }
  unfolding purge
  purge_metrics k t w body st m e = elim (Result-cases (F.metadata_len (paths k).body w.fs).0) [
    | inr (x, failed) ↦ absurd (ground arith)
    | inl (n, got) ↦
        ground (arith, compact_paths k, L.metadata_len_ok (paths k).body w.fs n body got st)
  ]
