-- ===== src/Disk/Hit.antt =====
-- Serving an entry (src/disk_cache/handle_hit.rs): ranges, deferred seeks and reads by chunks.
pub mod Read
pub mod Serve
pub mod Seek
use edge_cdn_store.Common.{
  ℕ, ◌+◌, ◌-◌, Bool, true, false, [], ◌∷◌, Option, none, some, Result, ok, err, min, leb, ltb,
  length, if◌then◌else◌,
}
use edge_cdn_store.Common.State.{M, Failure, trace_fn_exit_with_err}
use edge_cdn_store.Disk.Files.{Bytes, FileSystem, IoError}
use edge_cdn_store.Disk.World.{World, inc}

-- `file` stands for the open file; its read position is the file system's.
pub record DiskHitHandler (F : FileSystem) : Type 0 where
  pub file : F.Handle
  pub total_len : ℕ
  pub range_start : ℕ
  pub range_end : ℕ
  pub pos : ℕ
  pub pending_seek : Bool
  pub chunk : ℕ

module _ (F : FileSystem) where
  -- What a method of `&mut self` leaves: its result, the handler and the world.
  abbrev pub Stepped : Type 0 → Type 0
  Stepped A = Result Failure A × DiskHitHandler F × World F

  abbrev set_fs : World F → F.State → World F
  set_fs w s = record w { fs = s }

  sought : DiskHitHandler F → World F → Result IoError (Unit {0}) → Stepped (Unit {0})
  sought h w (ok _) = (ok tt, record h { pos = h.range_start; pending_seek = false }, w)
  sought h w (err _) = (trace_fn_exit_with_err none, h, w)

  -- The seek that `seek` left to the next read.
  deferred_seek : DiskHitHandler F → World F → Stepped (Unit {0})
  unfolding sought
  deferred_seek h w =
      if h.pending_seek
      then (let (r, s) = F.seek h.file h.range_start w.fs in sought h (set_fs w s) r)
      else (ok tt, h, w)

  received : DiskHitHandler F → World F → Result IoError Bytes → Stepped (Option Bytes)
  received h w (err _) = (trace_fn_exit_with_err none, h, w)
  received h w (ok []) = (ok none, record h { pos = h.range_end }, w)
  received h w (ok (b ∷ bs)) = (ok (some (b ∷ bs)), record h { pos = h.pos + length (b ∷ bs) }, w)

  -- The rest of `read_body`, with the read position in place.
  read_chunk : DiskHitHandler F → World F → Stepped (Option Bytes)
  unfolding received
  read_chunk h w =
      if leb h.range_end h.pos
      then (ok none, h, w)
      else (let (r, s) = F.read_some h.file (min h.chunk (h.range_end - h.pos)) w.fs in
          received h (set_fs w s) r)

  read_after : Stepped (Unit {0}) → Stepped (Option Bytes)
  unfolding read_chunk
  read_after (ok _, h, w) = read_chunk h w
  read_after (err e, h, w) = (err e, h, w)

  unfoldable pub read_body : DiskHitHandler F → World F → Stepped (Option Bytes)
  unfolding deferred_seek read_after
  read_body h w = read_after (deferred_seek h w)

  -- The end of the range that `seek` is asked for, or its error.
  seek_end : ℕ → Option ℕ → Result Failure ℕ
  seek_end total_len none = ok total_len
  seek_end total_len (some end) = if ltb total_len end then trace_fn_exit_with_err none else ok end

  seek_to : DiskHitHandler F → ℕ → Result Failure ℕ → Result Failure (Unit {0}) × DiskHitHandler F
  seek_to h start (err e) = (err e, h)
  seek_to h start (ok end) =
      if ltb end start
      then (trace_fn_exit_with_err none, h)
      else (ok tt, record h { range_start = start; range_end = end; pending_seek = true })

  unfoldable pub seek :
      ℕ → Option ℕ → DiskHitHandler F → Result Failure (Unit {0}) × DiskHitHandler F
  unfolding seek_end seek_to
  seek start end h = seek_to h start (seek_end h.total_len end)

  unfoldable pub can_seek : DiskHitHandler F → Bool
  can_seek h = true

  unfoldable pub get_eviction_weight : DiskHitHandler F → ℕ
  get_eviction_weight h = h.total_len

  -- `finish`, at the end of serving the entry.
  unfoldable pub finish_hit : DiskHitHandler F → M (World F) (Unit {0})
  finish_hit h w =
      (ok tt, record w { metrics = record (w.metrics) { served_hits = inc w.metrics.served_hits } })
