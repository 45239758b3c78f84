-- ===== src/Disk/Store/Handler.antt =====
-- The miss handler of an entry, as `get_miss_handler` makes it.
use edge_cdn_store.Common.{ℕ, ◌≡◌, ◌≢◌, sym, [], ok, arith, Result-cases, inl, inr}
use edge_cdn_store.Common.Text.{Text, codes}
use edge_cdn_store.Disk.Files.{Bytes, FilePath, join, FileSystem, IsLawful}
use edge_cdn_store.Disk.World.{World, CacheTypes, inc}
use edge_cdn_store.Disk.Paths.{DiskCache, entry_dir, path_from_hash, path_from_key}
use edge_cdn_store.Disk.Paths.Separate.{
  in_body, in_meta, in_hdr, InEntry-ne_tmp, body-ne-meta, body-ne-hdr, meta-ne-hdr,
}
use edge_cdn_store.Disk.Miss.{DiskMissHandler, Stamp, tmp_name, create_tmp}
use edge_cdn_store.Disk.Miss.Write.{Pending, create_tmp_ok}
use edge_cdn_store.Disk.Miss.Finish.{AreSeparate}
use edge_cdn_store.Disk.Store.{get_miss_handler}

-- The handler of an entry.
abbrev pub handler_for : DiskCache → Bytes → Stamp → Bytes → Bytes → ℕ → DiskMissHandler
handler_for c hash t a b n = record {
  tmp_path = join (entry_dir c hash) (tmp_name hash t);
  tmp_bytes_written = n;
  dir = entry_dir c hash;
  body_path = join (entry_dir c hash) (codes "body");
  meta_path = join (entry_dir c hash) (codes "meta");
  hdr_path = join (entry_dir c hash) (codes "hdr");
  meta_internal = a;
  meta_header = b;
}

abbrev pub tmp_of : DiskMissHandler → FilePath
tmp_of h = h.tmp_path

pub handler_for-AreSeparate :
    (c : DiskCache) (hash : Bytes) (t : Stamp) (a b : Bytes) (n : ℕ)
    → AreSeparate (handler_for c hash t a b n)
handler_for-AreSeparate c hash t a b n = record {
  tmp_body = λ e. InEntry-ne_tmp {c = c} {h = hash} in_body _ hash t (sym e);
  tmp_meta = λ e. InEntry-ne_tmp {c = c} {h = hash} in_meta _ hash t (sym e);
  tmp_hdr = λ e. InEntry-ne_tmp {c = c} {h = hash} in_hdr _ hash t (sym e);
  body_meta = body-ne-meta c hash;
  body_hdr = body-ne-hdr c hash;
  meta_hdr = meta-ne-hdr c hash;
}

module _ (F : FileSystem) (L : IsLawful F) (P : CacheTypes) (c : DiskCache) where
  pub get_miss_handler_ok :
      (k : P.CacheKey) (m : P.CacheMeta) (t : Stamp) (w : World F) (h : DiskMissHandler)
      → (get_miss_handler F P c k m t w).0 ≡ ok h
      → (a : Bytes) × (b : Bytes) × (P.serialize m ≡ ok (a, b))
        × (h ≡ handler_for c (P.combined k) t a b 0)
        × Pending F h [] (get_miss_handler F P c k m t w).1
        × ((get_miss_handler F P c k m t w).1.metrics
            ≡ record (w.metrics) { misses = inc w.metrics.misses })
  unfolding get_miss_handler path_from_key path_from_hash
  get_miss_handler_ok k m t w h e = elim (Result-cases (P.serialize m)) [
    | inl ((a, b), parts) ↦
        let hash = P.combined k in
        let s = (F.create_dir_all (entry_dir c hash) w.fs).1 in
        let v = record w {
          fs = s;
          metrics = record (w.metrics) { misses = inc w.metrics.misses };
        } in
        elim (Result-cases (create_tmp F (entry_dir c hash) hash t v).0) [
          | inl (p, made) ↦
              let tmp = create_tmp_ok F L (entry_dir c hash) hash t v p made in
              (a, b, parts, ground (arith, tmp), ground (arith, tmp), ground (arith, tmp))
          | inr (x, failed) ↦ absurd (ground arith)
        ]
    | inr (x, failed) ↦ absurd (ground arith)
  ]

  create_tmp_frame :
      (dir : FilePath) (hint : Text) (t : Stamp) (w : World F) (p : FilePath)
      → p ≢ join dir (tmp_name hint t)
      → F.file (create_tmp F dir hint t w).1.fs p ≡ F.file w.fs p
  unfolding create_tmp
  create_tmp_frame dir hint t w p n =
      let s = (F.create_dir_all dir w.fs).1 in
      ground (
        arith,
        L.file-create_dir_all dir p w.fs,
        L.file-create_ne (join dir (tmp_name hint t)) p s n,
      )

  pub get_miss_handler_frame :
      (k : P.CacheKey) (m : P.CacheMeta) (t : Stamp) (w : World F) (p : FilePath)
      → p ≢ join (entry_dir c (P.combined k)) (tmp_name (P.combined k) t)
      → F.file (get_miss_handler F P c k m t w).1.fs p ≡ F.file w.fs p
  unfolding get_miss_handler path_from_key path_from_hash
  get_miss_handler_frame k m t w p n =
      let hash = P.combined k in
      let s = (F.create_dir_all (entry_dir c hash) w.fs).1 in
      let v = record w { fs = s; metrics = record (w.metrics) { misses = inc w.metrics.misses } } in
      ground (
        arith,
        L.file-create_dir_all (entry_dir c hash) p w.fs,
        create_tmp_frame (entry_dir c hash) hash t v p n,
      )
