-- ===== src/Disk/Store/Lookup.antt =====
-- What `lookup` finds, and that it changes no file.
use edge_cdn_store.Common.{
  ℕ, ◌≤◌, ◌≡◌, ◌≢◌, refl, ◌∙◌, some, none, ok, length, arith, Result-cases, inl, inr, is_ok, true,
  false, take_all, ◌⊎◌,
}
use edge_cdn_store.Disk.Files.{Bytes, FilePath, FileSystem, IsLawful, IsReliable}
use edge_cdn_store.Disk.World.{World, CacheTypes, IsLawfulTypes, inc}
use edge_cdn_store.Disk.Paths.{DiskCache, entry_paths, path_from_hash, path_from_key}
use edge_cdn_store.Disk.Hit.{DiskHitHandler}
use edge_cdn_store.Disk.Hit.Read.{InSync, remaining}
use edge_cdn_store.Disk.Store.{lookup, default_read_buffer_size}
use edge_cdn_store.Disk.Store.Insert.{Stored}

module _ (F : FileSystem) (L : IsLawful F) (P : CacheTypes) (LP : IsLawfulTypes P)
    (c : DiskCache) where
  -- Looking up writes nothing.
  pub lookup_frame :
      (k : P.CacheKey) (w : World F) (p : FilePath)
      → F.file (lookup F P c k w).1.fs p ≡ F.file w.fs p
  unfolding lookup path_from_key path_from_hash
  lookup_frame k w p =
      grind (arith, L.file-create_dir_all, L.file-read, L.file-open_file, L.file-file_len)

  -- A hit on an entry that is stored, and whose metadata can be read, gives that metadata and a
  -- handler in step with its file, for which the whole body remains.
  pub lookup_sound :
      (k : P.CacheKey) (m m' : P.CacheMeta) (body a b : Bytes) (w : World F) (h : DiskHitHandler F)
      → Stored F P c (P.combined k) body a b w
      → P.deserialize a b ≡ ok m
      → (lookup F P c k w).0 ≡ ok (some (m', h))
      → (m' ≡ m) × InSync F h (lookup F P c k w).1 × (remaining F h (lookup F P c k w).1 ≡ body)
  unfolding lookup path_from_key path_from_hash
  lookup_sound k m m' body a b w h st d e =
      let q = entry_paths c (P.combined k) in
      let s1 = (F.create_dir_all c.root w.fs).1 in
      let s2 = (F.read q.meta s1).1 in
      let s3 = (F.read q.hdr s2).1 in
      elim (Result-cases (F.read q.meta s1).0) [
        | inr (x, failed) ↦ absurd (ground arith)
        | inl (a', got_meta) ↦ elim (Result-cases (F.read q.hdr s2).0) [
          | inr (x, failed) ↦ absurd (ground arith)
          | inl (b', got_hdr) ↦ ground (
            arith,
            L.read_ok q.meta s1 a' got_meta,
            L.read_ok q.hdr s2 b' got_hdr,
            L.file-create_dir_all c.root q.body w.fs,
            L.file-create_dir_all c.root q.meta w.fs,
            L.file-create_dir_all c.root q.hdr w.fs,
            L.file-read q.meta q.hdr s1,
            L.file-read q.meta q.body s1,
            L.file-read q.hdr q.body s2,
            L.open_file_ok q.body s3 h.file,
            L.file_len_ok h.file (F.open_file q.body s3).1 h.total_len,
            L.content-file_len h.file h.file (F.open_file q.body s3).1,
            L.cursor-file_len h.file h.file (F.open_file q.body s3).1,
            st.body_stored,
            st.meta_stored,
            st.hdr_stored,
            take_all h.total_len body,
          )
        ]
      ]

  abbrev fresh_hit : F.Handle → ℕ → DiskHitHandler F
  fresh_hit g n = record {
    file = g;
    total_len = n;
    range_start = 0;
    range_end = n;
    pos = 0;
    pending_seek = false;
    chunk = default_read_buffer_size;
  }

  -- The run of `lookup` in which every call succeeds.
  lookup_run :
      (k : P.CacheKey) (m : P.CacheMeta) (a b : Bytes) (w : World F) (g : F.Handle) (n : ℕ)
      → let q = entry_paths c (P.combined k) in
        let s1 = (F.create_dir_all c.root w.fs).1 in
        let s2 = (F.read q.meta s1).1 in
        let s3 = (F.read q.hdr s2).1 in
        let s4 = (F.open_file q.body s3).1 in
        4 ≤ length (P.combined k)
        → is_ok (F.create_dir_all c.root w.fs).0 ≡ true
        → (F.read q.meta s1).0 ≡ ok a
        → (F.read q.hdr s2).0 ≡ ok b
        → (F.open_file q.body s3).0 ≡ ok g
        → (F.file_len g s4).0 ≡ ok n
        → P.deserialize a b ≡ ok m
        → lookup F P c k w ≡ (
          ok (some (m, fresh_hit g n)),
          record {
            fs = (F.file_len g s4).1;
            metrics = record (w.metrics) { lookup_hits = inc w.metrics.lookup_hits };
          },
        )
  unfolding lookup path_from_key path_from_hash
  lookup_run k m a b w g n long made got_meta got_hdr og ln d = ground arith

  -- On a healthy disk an entry that is stored, and whose metadata can be read, is found with that
  -- metadata, one hit is counted and nothing else, and the disk stays healthy.
  pub lookup_complete :
      (IsHealthy : F.State → Type 0)
      → IsReliable F IsHealthy
      → (k : P.CacheKey) (m : P.CacheMeta) (body a b : Bytes) (w : World F) → IsHealthy w.fs
      → Stored F P c (P.combined k) body a b w
      → P.deserialize a b ≡ ok m
      → (h : DiskHitHandler F) × ((lookup F P c k w).0 ≡ ok (some (m, h)))
        × ((lookup F P c k w).1.metrics
            ≡ record (w.metrics) { lookup_hits = inc w.metrics.lookup_hits })
        × IsHealthy (lookup F P c k w).1.fs
  lookup_complete IsHealthy R k m body a b w healthy st d =
      let q = entry_paths c (P.combined k) in
      let s1 = (F.create_dir_all c.root w.fs).1 in
      let s2 = (F.read q.meta s1).1 in
      let s3 = (F.read q.hdr s2).1 in
      let (ok1, made) = R.create_dir_all-IsHealthy c.root w.fs healthy in
      let (ok2, got_meta) =
        R.read-IsHealthy q.meta s1 a ok1
          (L.file-create_dir_all c.root q.meta w.fs ∙ st.meta_stored) in
      let (ok3, got_hdr) =
        R.read-IsHealthy q.hdr s2 b ok2
          (L.file-read q.meta q.hdr s1 ∙ L.file-create_dir_all c.root q.hdr w.fs ∙ st.hdr_stored) in
      let (ok4, opened) = R.open_file-IsHealthy q.body s3 body ok3 (
        L.file-read q.hdr q.body s2
        ∙ L.file-read q.meta q.body s1
        ∙ L.file-create_dir_all c.root q.body w.fs
        ∙ st.body_stored) in
      elim (Result-cases (F.open_file q.body s3).0) [
        | inr (x, failed) ↦ absurd (ground arith)
        | inl (g, og) ↦
            let s4 = (F.open_file q.body s3).1 in
            let (ok5, measured) = R.file_len-IsHealthy g s4 ok4 in
            elim (Result-cases (F.file_len g s4).0) [
              | inr (x, failed) ↦ absurd (ground arith)
              | inl (n, ln) ↦
                  rw (lookup_run k m a b w g n (LP.combined_long k) made got_meta got_hdr og ln d)
                    (fresh_hit g n, refl, refl, ok5)
            ]
      ]

  -- An entry of which a file is missing is never served.
  pub lookup_missing :
      (k : P.CacheKey) (w : World F) (hit : P.CacheMeta × DiskHitHandler F)
      → (F.file w.fs (entry_paths c (P.combined k)).body ≡ none)
        ⊎ (F.file w.fs (entry_paths c (P.combined k)).meta ≡ none)
        ⊎ (F.file w.fs (entry_paths c (P.combined k)).hdr ≡ none)
      → (lookup F P c k w).0 ≢ ok (some hit)
  unfolding lookup path_from_key path_from_hash
  lookup_missing k w hit gone e =
      let q = entry_paths c (P.combined k) in
      let s1 = (F.create_dir_all c.root w.fs).1 in
      let s2 = (F.read q.meta s1).1 in
      let s3 = (F.read q.hdr s2).1 in
      elim (Result-cases (F.read q.meta s1).0) [
        | inr (x, failed) ↦ ground arith
        | inl (a, got_meta) ↦ elim (Result-cases (F.read q.hdr s2).0) [
          | inr (x, failed) ↦ ground arith
          | inl (b, got_hdr) ↦ elim (Result-cases (F.open_file q.body s3).0) [
            | inr (x, failed) ↦ ground arith
            | inl (g, opened) ↦ ground (
              arith,
              L.read_ok q.meta s1 a got_meta,
              L.read_ok q.hdr s2 b got_hdr,
              L.open_file_ok q.body s3 g opened,
              L.file-create_dir_all c.root q.body w.fs,
              L.file-create_dir_all c.root q.meta w.fs,
              L.file-create_dir_all c.root q.hdr w.fs,
              L.file-read q.meta q.hdr s1,
              L.file-read q.meta q.body s1,
              L.file-read q.hdr q.body s2,
            )
          ]
        ]
      ]
