-- ===== src/Disk/Paths/Separate.antt =====
-- Which paths are different: the files of one entry, those of two entries, and temporary files.
use edge_cdn_store.Common.{
  ℕ, ◌+◌, ◌≤◌, ◌≡◌, ◌≢◌, ◌↔◌, refl, sym, ap, ◌∙◌, [], ◌∷◌, ◌++◌, ok, length, arith, length-append,
}
use edge_cdn_store.Common.Text.{Text, codes, decimal}
use edge_cdn_store.Disk.Files.{Bytes, FilePath, join}
use edge_cdn_store.Disk.Paths.{DiskCache, entry_dir, entry_paths, path_from_hash}
use edge_cdn_store.Disk.Miss.{Stamp, tmp_name}

-- The path is one of the three committed files of the entry with this hash.
pub data InEntry (c : DiskCache) (hash : Bytes) : FilePath → Type 0 where
  in_body : InEntry c hash (join (entry_dir c hash) (codes "body"))
  in_meta : InEntry c hash (join (entry_dir c hash) (codes "meta"))
  in_hdr : InEntry c hash (join (entry_dir c hash) (codes "hdr"))

-- The name of a file and the name of its directory.
abbrev pub file_name : FilePath → Text
file_name [] = []
file_name (name ∷ _) = name

abbrev pub owner : FilePath → Text
owner (_ ∷ dir ∷ _) = dir
owner _ = []

InEntry-owner : {c : DiskCache} {h : Bytes} {p : FilePath} → InEntry c h p → owner p ≡ h
InEntry-owner in_body = refl
InEntry-owner in_meta = refl
InEntry-owner in_hdr = refl

pub InEntry-file_name :
    {c : DiskCache} {h : Bytes} {p : FilePath} → InEntry c h p → length (file_name p) ≤ 4
InEntry-file_name in_body = omega arith
InEntry-file_name in_meta = omega arith
InEntry-file_name in_hdr = omega arith

-- No two entries share a file.
pub InEntry-ne :
    {c : DiskCache} {g h : Bytes} {p q : FilePath} → InEntry c g p → InEntry c h q → g ≢ h → p ≢ q
InEntry-ne i j n e = n (sym (InEntry-owner i) ∙ ap owner e ∙ InEntry-owner j)

-- The path is none of the three files of the entry.
pub record IsElsewhere (c : DiskCache) (hash : Bytes) (p : FilePath) : Type 0 where
  pub not_body : p ≢ (entry_paths c hash).body
  pub not_meta : p ≢ (entry_paths c hash).meta
  pub not_hdr : p ≢ (entry_paths c hash).hdr

pub InEntry-IsElsewhere :
    {c : DiskCache} {g h : Bytes} {p : FilePath} → InEntry c g p → g ≢ h → IsElsewhere c h p
InEntry-IsElsewhere i n = record {
  not_body = InEntry-ne i in_body n;
  not_meta = InEntry-ne i in_meta n;
  not_hdr = InEntry-ne i in_hdr n;
}

-- The slices of the hash are in range exactly when it has four bytes.
pub path_from_hash_iff :
    (c : DiskCache) (hash : Bytes)
    → (path_from_hash c hash ≡ ok (entry_paths c hash)) ↔ (4 ≤ length hash)
unfolding path_from_hash
path_from_hash_iff c hash = ground arith

length-tmp_name : (hint : Text) (t : Stamp) → length hint + 5 ≤ length (tmp_name hint t)
unfolding tmp_name
length-tmp_name hint t =
    omega (
      arith,
      length-append hint (codes ".tmp-" ++ (decimal t.pid ++ (codes "-" ++ decimal t.nanos))),
    )

-- The temporary file of an entry is no committed file, of this entry or of another.
pub InEntry-ne_tmp :
    {c : DiskCache} {h : Bytes} {p : FilePath}
    → InEntry c h p
    → (dir : FilePath) (hint : Text) (t : Stamp) → p ≢ join dir (tmp_name hint t)
InEntry-ne_tmp {p} i dir hint t e =
    let same : file_name p ≡ tmp_name hint t = ap file_name e in
    absurd (omega (arith, InEntry-file_name i, length-tmp_name hint t, ap length same))

abbrev initial : FilePath → ℕ
initial ((x ∷ _) ∷ _) = x
initial _ = 0

-- The three files of an entry differ by their names.
module _ (c : DiskCache) (hash : Bytes) where
  pub body-ne-meta : (entry_paths c hash).body ≢ (entry_paths c hash).meta
  body-ne-meta e = absurd (omega (arith, ap initial e))

  pub body-ne-hdr : (entry_paths c hash).body ≢ (entry_paths c hash).hdr
  body-ne-hdr e = absurd (omega (arith, ap initial e))

  pub meta-ne-hdr : (entry_paths c hash).meta ≢ (entry_paths c hash).hdr
  meta-ne-hdr e = absurd (omega (arith, ap initial e))

pub tmp_name-IsElsewhere :
    (c : DiskCache) (hash : Bytes) (dir : FilePath) (hint : Text) (t : Stamp)
    → IsElsewhere c hash (join dir (tmp_name hint t))
tmp_name-IsElsewhere c hash dir hint t = record {
  not_body = λ e. InEntry-ne_tmp {c = c} {h = hash} in_body dir hint t (sym e);
  not_meta = λ e. InEntry-ne_tmp {c = c} {h = hash} in_meta dir hint t (sym e);
  not_hdr = λ e. InEntry-ne_tmp {c = c} {h = hash} in_hdr dir hint t (sym e);
}
