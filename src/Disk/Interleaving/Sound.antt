-- ===== src/Disk/Interleaving/Sound.antt =====
-- What holds of the open responses, however the steps are interleaved.
use edge_cdn_store.Common.{
  ℕ, ◌≡◌, ◌≢◌, ◌⊎◌, sym, ap, ◌∙◌, subst, inl, inr, Option, none, some, ok, ◌==◌, ==_iff, Bool-cases,
  arith,
}
use edge_cdn_store.Disk.Files.{Bytes, FilePath, FileSystem, IsLawful}
use edge_cdn_store.Disk.World.{World, CacheTypes, IsLawfulTypes}
use edge_cdn_store.Disk.Paths.{DiskCache, entry_dir}
use edge_cdn_store.Disk.Paths.Temporary.{tmp_name_injective}
use edge_cdn_store.Disk.Paths.Separate.{owner, file_name, IsElsewhere, tmp_name-IsElsewhere}
use edge_cdn_store.Disk.Miss.{DiskMissHandler, Stamp, tmp_name, finish, drop_handler}
use edge_cdn_store.Disk.Miss.Write.{Pending}
use edge_cdn_store.Disk.Miss.Finish.{AreSeparate, finish_frame}
use edge_cdn_store.Disk.Hit.{DiskHitHandler, read_body}
use edge_cdn_store.Disk.Store.Handler.{handler_for, handler_for-AreSeparate}
use edge_cdn_store.Disk.Interleaving.{Open, Slots, System, set, set_world, tmp_path_of, IsFresh}

module _ (F : FileSystem) (P : CacheTypes) (c : DiskCache) where
  -- An open response: its handler is that of its entry, and its temporary file holds what was
  -- written.
  pub record IsOpen (o : Open P) (w : World F) : Type 0 where
    pub internal : Bytes
    pub header : Bytes
    pub serialized : P.serialize o.meta ≡ ok (internal, header)
    pub shape :
        o.handler
        ≡ handler_for c (P.combined o.key) o.stamp internal header o.handler.tmp_bytes_written
    pub pending : Pending F o.handler o.written w

  pub record IsSound (s : System F P) : Type 0 where
    pub opened : (i : ℕ) (o : Open P) → s.slots i ≡ some o → IsOpen o s.world
    pub apart :
        (i j : ℕ) (o o' : Open P)
        → s.slots i ≡ some o
        → s.slots j ≡ some o'
        → i ≢ j
        → o.handler.tmp_path ≢ o'.handler.tmp_path

  -- A path at which two worlds have the same file.
  abbrev pub Same : World F → World F → FilePath → Type 0
  Same w w' p = F.file w'.fs p ≡ F.file w.fs p

  IsOpen-Same :
      (o : Open P) (w w' : World F) → Same w w' o.handler.tmp_path → IsOpen o w → IsOpen o w'
  IsOpen-Same o w w' same i = record {
    internal = i.internal;
    header = i.header;
    serialized = i.serialized;
    shape = i.shape;
    pending = record { stored = same ∙ i.pending.stored; counted = i.pending.counted };
  }

  -- A call that leaves all temporary files alone.
  pub Same-IsSound :
      (s : System F P) (w' : World F)
      → IsSound s
      → ((i : ℕ) (o : Open P) → s.slots i ≡ some o → Same s.world w' o.handler.tmp_path)
      → IsSound (set_world F P s w')
  Same-IsSound s w' sound same = record {
    opened = λ i o e. IsOpen-Same o s.world w' (same i o e) (sound.opened i o e);
    apart = sound.apart;
  }

  set-cases :
      (slots : Slots F P) (i : ℕ) (v : Option (Open P)) (j : ℕ) (o : Open P)
      → set F P slots i v j ≡ some o
      → ((j ≡ i) × (v ≡ some o)) ⊎ ((j ≢ i) × (slots j ≡ some o))
  set-cases slots i v j o e = elim (Bool-cases (j == i)) [
    | inl at ↦ inl ((==_iff j i).0 at, rw at at e)
    | inr other ↦ inr (λ q. cc (other, (==_iff j i).1 q), rw other at e)
  ]

  -- A call on one slot, which leaves the temporary files of the others alone.
  set-IsSound :
      (s : System F P) (w' : World F) (i : ℕ) (v : Option (Open P))
      → IsSound s
      → ((j : ℕ) (o : Open P) → s.slots j ≡ some o → j ≢ i → Same s.world w' o.handler.tmp_path)
      → ((o : Open P) → v ≡ some o → IsOpen o w')
      → ((j : ℕ) (o o' : Open P)
          → v ≡ some o
          → s.slots j ≡ some o'
          → j ≢ i
          → o.handler.tmp_path ≢ o'.handler.tmp_path)
      → IsSound (record { world = w'; slots = set F P s.slots i v })
  set-IsSound s w' i v sound same here away = record {
    opened = λ j o e. elim (set-cases s.slots i v j o e) [
      | inl (at, q) ↦ here o q
      | inr (n, q) ↦ IsOpen-Same o s.world w' (same j o q n) (sound.opened j o q)
    ];
    apart = λ j k o o' e e' n. elim (set-cases s.slots i v j o e) [
      | inl (at, q) ↦ elim (set-cases s.slots i v k o' e') [
        | inl (at', q') ↦ absurd (n (at ∙ sym at'))
        | inr (n', q') ↦ away k o o' q q' n'
      ]
      | inr (n', q) ↦ elim (set-cases s.slots i v k o' e') [
        | inl (at', q') ↦ λ r. away j o' o q' q n' (sym r)
        | inr (n'', q') ↦ sound.apart j k o o' q q' n
      ]
    ];
  }

  -- Opening or changing the response in a slot.
  pub put-IsSound :
      (s : System F P) (w' : World F) (i : ℕ) (o : Open P)
      → IsSound s
      → ((j : ℕ) (o' : Open P) → s.slots j ≡ some o' → j ≢ i → Same s.world w' o'.handler.tmp_path)
      → IsOpen o w'
      → ((j : ℕ) (o' : Open P)
          → s.slots j ≡ some o'
          → j ≢ i
          → o'.handler.tmp_path ≢ o.handler.tmp_path)
      → IsSound (record { world = w'; slots = set F P s.slots i (some o) })
  put-IsSound s w' i o sound same here away =
      set-IsSound s w' i (some o) sound same (λ x q. subst (λ y. IsOpen y w') (cc q) here)
        (λ j x o' q q' n e.
          away j o' q' n
            (sym e ∙ ap (λ (y : Open P). y.handler.tmp_path) (let e' : x ≡ o = cc q in e')))

  -- Closing a slot.
  pub close-IsSound :
      (s : System F P) (w' : World F) (i : ℕ)
      → IsSound s
      → ((j : ℕ) (o : Open P) → s.slots j ≡ some o → j ≢ i → Same s.world w' o.handler.tmp_path)
      → IsSound (record { world = w'; slots = set F P s.slots i none })
  close-IsSound s w' i sound same = set-IsSound s w' i none sound same (λ o e. cc) (λ j o o' e. cc)

  pub tmp_path_lem :
      (o : Open P) (w : World F) → IsOpen o w → o.handler.tmp_path ≡ tmp_path_of F P c o.key o.stamp
  tmp_path_lem o w i = ap (λ (h : DiskMissHandler). h.tmp_path) i.shape

  -- The temporary file of an open response is no file of an entry.
  pub IsOpen-IsElsewhere :
      (o : Open P) (w : World F) (hash : Bytes) → IsOpen o w → IsElsewhere c hash o.handler.tmp_path
  IsOpen-IsElsewhere o w hash i =
      subst (IsElsewhere c hash) (sym (tmp_path_lem o w i))
        (tmp_name-IsElsewhere c hash (entry_dir c (P.combined o.key)) (P.combined o.key) o.stamp)

  -- A response that is begun gets a temporary file of its own.
  pub fresh_path :
      (s : System F P) (k : P.CacheKey) (t : Stamp)
      → IsSound s
      → IsFresh F P c s.slots k t
      → (j : ℕ) (o : Open P) → s.slots j ≡ some o
      → o.handler.tmp_path ≢ tmp_path_of F P c k t
  fresh_path s k t sound fresh j o q e =
      let same = sym (tmp_path_lem o s.world (sound.opened j o q)) ∙ e in
      let hash = ap owner same in
      let names = ap file_name same in
      fresh j o q hash (
        tmp_name_injective (P.combined k) o.stamp t
          (ap (λ h. tmp_name h o.stamp) (sym hash) ∙ names))

module _ (F : FileSystem) (L : IsLawful F) (P : CacheTypes) (LP : IsLawfulTypes P)
    (c : DiskCache) where
  -- Which files the calls for one open response leave alone.
  pub finish-Same :
      (o : Open P) (w : World F) (p : FilePath)
      → IsOpen F P c o w
      → p ≢ o.handler.tmp_path
      → IsElsewhere c (P.combined o.key) p
      → Same F P c w (finish F o.handler w).1 p
  finish-Same o w p i n e =
      let sep = subst AreSeparate (sym i.shape) (
        handler_for-AreSeparate c (P.combined o.key) o.stamp i.internal i.header
          o.handler.tmp_bytes_written) in
      finish_frame F L o.handler sep w p n
        (λ q. e.not_body (q ∙ ap (λ (h : DiskMissHandler). h.body_path) i.shape))
        (λ q. e.not_meta (q ∙ ap (λ (h : DiskMissHandler). h.meta_path) i.shape))
        (λ q. e.not_hdr (q ∙ ap (λ (h : DiskMissHandler). h.hdr_path) i.shape))

  pub drop_handler-Same :
      (h : DiskMissHandler) (w : World F) (p : FilePath)
      → p ≢ h.tmp_path
      → Same F P c w (drop_handler F h w) p
  unfolding drop_handler
  drop_handler-Same h w p n = L.file-remove_file_ne h.tmp_path p w.fs n

  pub read_body-Same :
      (h : DiskHitHandler F) (w : World F) (p : FilePath) → Same F P c w (read_body F h w).2 p
  unfolding read_body
  read_body-Same h w p = grind (arith, L.file-seek, L.file-read_some)
