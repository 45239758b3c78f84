-- ===== src/Disk/Store/Entries.antt =====
-- The disk cache as a map from hashes to entries, which forgets the directories, the temporary
-- files and the metrics.
use mathlib.Core.Path.{fun_ext}
use edge_cdn_store.Common.{
  ◌≡◌, ◌≢◌, refl, sym, ◌∙◌, ap, List, Option, none, some, true, Result, ok, inl, inr, Bool-cases,
  if◌then◌else◌, arith, concat,
}
use edge_cdn_store.Common.State.{ErrorType}
use edge_cdn_store.Common.Text.{text_eq, text_eq_iff}
use edge_cdn_store.Disk.Files.{Bytes, FilePath, FileSystem, IsLawful}
use edge_cdn_store.Disk.World.{World, CacheTypes, IsLawfulTypes}
use edge_cdn_store.Disk.Paths.{DiskCache, entry_paths}
use edge_cdn_store.Disk.Paths.Separate.{InEntry, in_body, in_meta, in_hdr, InEntry-IsElsewhere}
use edge_cdn_store.Disk.Miss.{Stamp, MissFinishType}
use edge_cdn_store.Disk.Store.{PurgeType, lookup, purge, update_meta}
use edge_cdn_store.Disk.Store.Insert.{
  Stored, store_response, store_response_ok, store_response_frame,
}
use edge_cdn_store.Disk.Store.Lookup.{lookup_frame}
use edge_cdn_store.Disk.Store.Purge.{purge_ok, purge_frame}
use edge_cdn_store.Disk.Store.Update.{update_meta_ok, update_meta_frame}

-- A body with the two parts of its metadata.
abbrev pub Entry : Type 0
Entry = Bytes × Bytes × Bytes

-- The abstract cache, and what a change of one entry does to it.
abbrev pub Entries : Type 0
Entries = Bytes → Option Entry

abbrev pub put : Bytes → Option Entry → Entries → Entries
put hash e m g = if text_eq g hash then e else m g

all_of : Option Bytes → Option Bytes → Option Bytes → Option Entry
all_of (some body) (some a) (some b) = some (body, a, b)
all_of (some body) (some a) none = none
all_of (some body) none b = none
all_of none a b = none

all_of-some :
    (x y z : Option Bytes) (body a b : Bytes)
    → all_of x y z ≡ some (body, a, b)
    → (x ≡ some body) × (y ≡ some a) × (z ≡ some b)
unfolding all_of
all_of-some (some x) (some y) (some z) body a b e = (cc e, cc e, cc e)
all_of-some (some x) (some y) none body a b e = absurd (cc e)
all_of-some (some x) none z body a b e = absurd (cc e)
all_of-some none y z body a b e = absurd (cc e)

module _ (F : FileSystem) (P : CacheTypes) (c : DiskCache) where
  -- What the files are for the map: an entry is there when its three files are.
  unfoldable pub entries : World F → Entries
  unfolding all_of
  entries w hash =
      let q = entry_paths c hash in
      all_of (F.file w.fs q.body) (F.file w.fs q.meta) (F.file w.fs q.hdr)

  -- A call, between two states: a lookup, or another one that succeeds.
  pub data Call (w : World F) : World F → Type 0 where
    stored :
        (k : P.CacheKey) (m : P.CacheMeta) (t : Stamp) (pieces : List Bytes) (r : MissFinishType)
        (a b : Bytes)
        → P.serialize m ≡ ok (a, b)
        → (store_response F P c k m t pieces w).0 ≡ ok r
        → Call w (store_response F P c k m t pieces w).1
    removed :
        (k : P.CacheKey) (t : PurgeType)
        → (purge F P c (P.to_compact k) t w).0 ≡ ok true
        → Call w (purge F P c (P.to_compact k) t w).1
    rewritten :
        (k : P.CacheKey) (m : P.CacheMeta) (body a b a' b' : Bytes)
        → P.serialize m ≡ ok (a', b')
        → entries w (P.combined k) ≡ some (body, a, b)
        → (update_meta F P c k m w).0 ≡ ok true
        → Call w (update_meta F P c k m w).1
    looked_up : (k : P.CacheKey) → Call w (lookup F P c k w).1

  abbrev pub effect : {w w' : World F} → Call w w' → Entries → Entries
  effect (stored k m t pieces r a b p e) = put (P.combined k) (some (concat pieces, a, b))
  effect (removed k t e) = put (P.combined k) none
  effect (rewritten k m body a b a' b' p i e) = put (P.combined k) (some (body, a', b'))
  effect (looked_up k) = λ m. m

  -- Calls one after the other, and their effects.
  pub data Calls (w : World F) : World F → Type 0 where
    none_yet : Calls w w
    and_then : {w' w'' : World F} → Calls w w' → Call w' w'' → Calls w w''

  unfoldable pub effects : {w w' : World F} → Calls w w' → Entries → Entries
  effects none_yet m = m
  effects (and_then cs call) m = effect call (effects cs m)

  Stored-entries :
      (hash body a b : Bytes) (w : World F)
      → Stored F P c hash body a b w
      → entries w hash ≡ some (body, a, b)
  unfolding entries
  Stored-entries hash body a b w st = rw (st.body_stored, st.meta_stored, st.hdr_stored) refl

  no_entry :
      (hash : Bytes) (w : World F)
      → F.file w.fs (entry_paths c hash).body ≡ none
      → entries w hash ≡ none
  unfolding entries
  no_entry hash w gone = rw gone refl

  entries-Stored :
      (hash body a b : Bytes) (w : World F)
      → entries w hash ≡ some (body, a, b)
      → Stored F P c hash body a b w
  unfolding entries
  entries-Stored hash body a b w e =
      let (at_body, at_meta, at_hdr) = all_of-some _ _ _ body a b e in
      record { body_stored = at_body; meta_stored = at_meta; hdr_stored = at_hdr }

  -- Entries with the same files are the same.
  same_entries :
      (g : Bytes) (w w' : World F)
      → ((p : FilePath) → InEntry c g p → F.file w'.fs p ≡ F.file w.fs p)
      → entries w' g ≡ entries w g
  unfolding entries
  same_entries g w w' same = rw (same _ in_body, same _ in_meta, same _ in_hdr) refl

same_parts :
    (body a b a' b' : Bytes)
    → ◌≡◌ {A = Result ErrorType (Bytes × Bytes)} (ok (a', b')) (ok (a, b))
    → ◌≡◌ {A = Option Entry} (some (body, a', b')) (some (body, a, b))
same_parts body a b a' b' e = cc e

-- A change of one entry, point by point.
put-only :
    (hash : Bytes) (e : Option Entry) (m m' : Entries)
    → m' hash ≡ e
    → ((g : Bytes) → g ≢ hash → m' g ≡ m g)
    → (g : Bytes) → m' g ≡ put hash e m g
put-only hash e m m' here elsewhere g = elim (Bool-cases (text_eq g hash)) [
  | inl same ↦ rw same (ap m' ((text_eq_iff g hash).0 same) ∙ here)
  | inr other ↦ rw other (elsewhere g (λ same. ground (arith, text_eq_iff g hash, same)))
]

module _ (F : FileSystem) (L : IsLawful F) (P : CacheTypes) (LP : IsLawfulTypes P)
    (c : DiskCache) where
  body_gone :
      (k : P.CacheKey) (t : PurgeType) (w : World F)
      → (purge F P c (P.to_compact k) t w).0 ≡ ok true
      → F.file (purge F P c (P.to_compact k) t w).1.fs (entry_paths c (P.combined k)).body ≡ none
  body_gone k t w e = elim (purge_ok F L P LP c k t w) [
    | inl (said, there, gone) ↦ gone
    | inr (said, kept) ↦ absurd (cc (said, e))
  ]

  Call-entries :
      {w w' : World F} (call : Call F P c w w') (g : Bytes)
      → entries F P c w' g ≡ effect F P c call (entries F P c w) g
  Call-entries {w} (stored k m t pieces r a b p e) =
      let (a', b', p', what, st, counted) = store_response_ok F L P c k m t pieces w r e in
      put-only (P.combined k) _ _ _
        (Stored-entries F P c (P.combined k) (concat pieces) a' b' _ st
          ∙ same_parts (concat pieces) a b a' b' (sym p' ∙ p))
        λ g n. same_entries F P c g w _ λ q i. store_response_frame F L P c k m t pieces w g q n i
  Call-entries {w} (removed k t e) =
      put-only (P.combined k) _ _ _ (no_entry F P c (P.combined k) _ (body_gone k t w e))
        λ g n. same_entries F P c g w _ λ q i. purge_frame F L P LP c k t w g q n i
  Call-entries {w} (rewritten k m body a b a' b' p i e) =
      put-only (P.combined k) _ _ _
        (Stored-entries F P c (P.combined k) body a' b' _ (
          update_meta_ok F L P LP c k m w body a b a' b'
            (entries-Stored F P c (P.combined k) body a b w i) p e))
        λ g n.
          same_entries F P c g w _
            λ q j. update_meta_frame F L P LP c k m w q (InEntry-IsElsewhere j n)
  Call-entries {w} (looked_up k) =
      λ g. same_entries F P c g w _ λ q i. lookup_frame F L P LP c k w q

  -- After any sequence of stores that return, purges that answer true, updates of a stored entry's
  -- metadata that answer true, and lookups, the files hold exactly the entries that a map has after
  -- the same insertions, removals and changes of metadata.
  pub Calls-entries :
      {w w' : World F} (cs : Calls F P c w w')
      → entries F P c w' ≡ effects F P c cs (entries F P c w)
  unfolding effects
  Calls-entries none_yet = refl
  Calls-entries (and_then cs call) =
      fun_ext (Call-entries call) ∙ ap (effect F P c call) (Calls-entries cs)
