-- ===== src/Disk/Store/Update.antt =====
-- Rewriting the metadata of an entry (`update_meta`).
use edge_cdn_store.Common.{◌≡◌, true, false, ok, arith}
use edge_cdn_store.Disk.Files.{Bytes, FilePath, FileSystem, IsLawful}
use edge_cdn_store.Disk.World.{World, CacheTypes, IsLawfulTypes}
use edge_cdn_store.Disk.Paths.{DiskCache, entry_paths, path_from_hash, path_from_key}
use edge_cdn_store.Disk.Paths.Separate.{IsElsewhere, body-ne-meta, body-ne-hdr, meta-ne-hdr}
use edge_cdn_store.Disk.Store.{update_meta}
use edge_cdn_store.Disk.Store.Insert.{Stored}

module _ (F : FileSystem) (L : IsLawful F) (P : CacheTypes) (LP : IsLawfulTypes P)
    (c : DiskCache) where
  -- If `update_meta` answers `true` for an entry that is stored, the entry has the new metadata,
  -- serialized, and its old body.
  pub update_meta_ok :
      (k : P.CacheKey) (m : P.CacheMeta) (w : World F) (body a b a' b' : Bytes)
      → Stored F P c (P.combined k) body a b w
      → P.serialize m ≡ ok (a', b')
      → (update_meta F P c k m w).0 ≡ ok true
      → Stored F P c (P.combined k) body a' b' (update_meta F P c k m w).1
  unfolding update_meta path_from_key path_from_hash
  update_meta_ok k m w body a b a' b' st parts e =
      let q = entry_paths c (P.combined k) in
      let s1 = (F.write q.meta a' w.fs).1 in
      ground (
        arith,
        LP.combined_long k,
        L.write_ok q.meta a' w.fs,
        L.write_ok q.hdr b' s1,
        L.file-write_ne q.meta q.body a' w.fs (body-ne-meta c (P.combined k)),
        L.file-write_ne q.hdr q.body b' s1 (body-ne-hdr c (P.combined k)),
        L.file-write_ne q.hdr q.meta b' s1 (meta-ne-hdr c (P.combined k)),
        st.body_stored,
      )

  -- If `update_meta` answers `false`, the body does not exist and nothing has changed.
  pub update_meta-false :
      (k : P.CacheKey) (m : P.CacheMeta) (w : World F)
      → (update_meta F P c k m w).0 ≡ ok false
      → (F.exists (entry_paths c (P.combined k)).body w.fs ≡ false)
        × ((update_meta F P c k m w).1 ≡ w)
  unfolding update_meta path_from_key path_from_hash
  update_meta-false k m w e = ground (arith, LP.combined_long k)

  -- It touches no file but the metadata and the header of the entry.
  pub update_meta_frame :
      (k : P.CacheKey) (m : P.CacheMeta) (w : World F) (p : FilePath)
      → IsElsewhere c (P.combined k) p
      → F.file (update_meta F P c k m w).1.fs p ≡ F.file w.fs p
  unfolding update_meta path_from_key path_from_hash
  update_meta_frame k m w p e = grind (arith, L.file-write_ne, e.not_meta, e.not_hdr)
