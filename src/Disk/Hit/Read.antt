-- ===== src/Disk/Hit/Read.antt =====
-- Reading a range: what `read_body` returns, call by call, and what a whole run of calls returns.
use edge_cdn_store.Common.{
  ℕ, ◌+◌, ◌-◌, ◌≤◌, ◌<◌, true, false, ◌≡◌, ◌⊎◌, refl, sym, ◌∙◌, [], ◌++◌, some, none, Option, ok,
  err, length, arith, take, drop, min, if◌then◌else◌, length-take, length-drop, take-append-take,
  drop-drop,
}
use edge_cdn_store.Disk.Files.{Bytes, FileSystem, IsLawful}
use edge_cdn_store.Disk.World.{World}
use edge_cdn_store.Disk.Hit.{
  DiskHitHandler, Stepped, deferred_seek, read_chunk, read_after, read_body,
}

module _ (F : FileSystem) where
  -- Where the next read starts.
  abbrev pub next_pos : DiskHitHandler F → ℕ
  next_pos h = if h.pending_seek then h.range_start else h.pos

  -- The handler agrees with the open file: its length, a range within it, and, unless a seek is
  -- pending, the read position.
  pub record InSync (h : DiskHitHandler F) (w : World F) : Type 0 where
    pub measured : length (F.content w.fs h.file) ≡ h.total_len
    pub within : h.range_end ≤ h.total_len
    pub ordered : next_pos h ≤ h.range_end
    pub placed : (h.pending_seek ≡ true) ⊎ (F.cursor w.fs h.file ≡ h.pos)
    pub chunked : 0 < h.chunk

  -- The bytes of the range that are still to be read.
  abbrev pub remaining : DiskHitHandler F → World F → Bytes
  remaining h w = take (h.range_end - next_pos h) (drop (next_pos h) (F.content w.fs h.file))

module _ (F : FileSystem) (L : IsLawful F) where
  -- The deferred seek leaves the same bytes to read, with the read position in place.
  deferred_seek_ok :
      (h h' : DiskHitHandler F) (w w' : World F)
      → InSync F h w
      → deferred_seek F h w ≡ (ok tt, h', w')
      → InSync F h' w'
        × (h'.pending_seek ≡ false)
        × (remaining F h' w' ≡ remaining F h w)
        × (h'.chunk ≡ h.chunk)
        × (h'.range_end ≡ h.range_end)
        × (next_pos F h' ≡ next_pos F h)
  unfolding deferred_seek
  deferred_seek_ok h h' w w' s e = ground (
    arith,
    L.content-seek h.file h.file h.range_start w.fs,
    L.cursor-seek h.file h.range_start w.fs,
  )

  take_none : (n c : ℕ) (xs : Bytes) → n ≤ c → take (n - c) xs ≡ []
  take_none n c xs h = let e : n - c ≡ 0 = omega arith in rw e

  slice_step :
      (c e k : ℕ) (xs b : Bytes)
      → b ≡ take k (drop c xs)
      → k ≤ e - c
      → take (e - c) (drop c xs) ≡ b ++ take (e - (c + k)) (drop (c + k) xs)
  slice_step c e k xs b same small =
      let sum : e - c ≡ k + (e - (c + k)) = omega arith in
      rw (same, ← drop-drop c k xs, take-append-take, ← sum)

  -- A chunk that is returned is the next piece of the range.
  read_chunk-some :
      (h h' : DiskHitHandler F) (w w' : World F) (b : Bytes)
      → InSync F h w
      → h.pending_seek ≡ false
      → read_chunk F h w ≡ (ok (some b), h', w')
      → InSync F h' w'
        × (remaining F h w ≡ b ++ remaining F h' w')
        × (0 < length b)
        × (length b ≤ h.chunk)
        × (h'.range_end ≡ h.range_end)
        × (next_pos F h' ≡ next_pos F h + length b)
  unfolding read_chunk
  read_chunk-some h h' w w' b s calm e =
      let n = min h.chunk (h.range_end - h.pos) in
      ground (
        arith,
        L.read_some_ok h.file n w.fs b,
        L.content-read_some h.file h.file n w.fs,
        slice_step h.pos h.range_end (length b) (F.content w.fs h.file) b,
      )

  -- The end is reported only when the range is used up.
  read_chunk-none :
      (h h' : DiskHitHandler F) (w w' : World F)
      → InSync F h w
      → h.pending_seek ≡ false
      → read_chunk F h w ≡ (ok none, h', w')
      → InSync F h' w' × (h.range_end ≤ next_pos F h)
  unfolding read_chunk
  read_chunk-none h h' w w' s calm e =
      let n = min h.chunk (h.range_end - h.pos) in
      ground (arith, L.read_some_ok h.file n w.fs [], L.content-read_some h.file h.file n w.fs)

  -- What the second half of `read_body` was given.
  read_after_ok :
      (d : Stepped F (Unit {0})) (o : Option Bytes) (h' : DiskHitHandler F) (w' : World F)
      → read_after F d ≡ (ok o, h', w')
      → (d ≡ (ok tt, d.1, d.2)) × (read_chunk F d.1 d.2 ≡ (ok o, h', w'))
  unfolding read_after
  read_after_ok (ok _, h, w) o h' w' e = (refl, e)
  read_after_ok (err x, h, w) o h' w' e = cc

  read_body_lem :
      (h : DiskHitHandler F) (w : World F) → read_body F h w ≡ read_after F (deferred_seek F h w)
  unfolding read_body
  read_body_lem h w = refl

  -- A call that returns bytes returns the next piece of the range: not empty, at most a chunk long,
  -- followed by what remains afterwards. The position moves by its length, the end of the range
  -- stays, and the handler stays in step with its file.
  pub read_body-some :
      (h h' : DiskHitHandler F) (w w' : World F) (b : Bytes)
      → InSync F h w
      → read_body F h w ≡ (ok (some b), h', w')
      → InSync F h' w'
        × (remaining F h w ≡ b ++ remaining F h' w')
        × (0 < length b)
        × (length b ≤ h.chunk)
        × (h'.range_end ≡ h.range_end)
        × (next_pos F h' ≡ next_pos F h + length b)
  read_body-some h h' w w' b s e =
      let d = deferred_seek F h w in
      let (sought, chunk) = read_after_ok d (some b) h' w' (sym (read_body_lem h w) ∙ e) in
      let (sync, calm, same, sized, ended, at) = deferred_seek_ok h d.1 w d.2 s sought in
      let (sync', next, some_bytes, small, bound, moved) =
        read_chunk-some d.1 h' d.2 w' b sync calm chunk in
      (sync', sym same ∙ next, some_bytes, omega arith, bound ∙ ended, omega arith)

  pub read_body-none :
      (h h' : DiskHitHandler F) (w w' : World F)
      → InSync F h w
      → read_body F h w ≡ (ok none, h', w')
      → InSync F h' w' × (remaining F h w ≡ [])
  read_body-none h h' w w' s e =
      let d = deferred_seek F h w in
      let (sought, chunk) = read_after_ok d none h' w' (sym (read_body_lem h w) ∙ e) in
      let (sync, calm, same, sized, ended, at) = deferred_seek_ok h d.1 w d.2 s sought in
      let (sync', past) = read_chunk-none d.1 h' d.2 w' sync calm chunk in
      (sync', sym same ∙ take_none _ _ _ past)

module _ (F : FileSystem) where
  pub length-remaining :
      (h : DiskHitHandler F) (w : World F)
      → InSync F h w
      → length (remaining F h w) ≡ h.range_end - next_pos F h
  length-remaining h w s =
      let xs = F.content w.fs h.file in
      omega (
        arith,
        length-take (h.range_end - next_pos F h) (drop (next_pos F h) xs),
        length-drop (next_pos F h) xs,
        s.measured,
        s.within,
        s.ordered,
      )
