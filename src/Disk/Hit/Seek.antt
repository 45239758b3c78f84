-- ===== src/Disk/Hit/Seek.antt =====
-- Seeking to a range: which requests are accepted, and what is read after one.
use edge_cdn_store.Common.{
  ℕ, ◌-◌, ◌≤◌, ◌<◌, ◌≡◌, ap, ◌∙◌, ◌↔◌, some, none, Option, ok, err, take, drop, arith,
}
use edge_cdn_store.Common.State.{Failure, error, internal_error}
use edge_cdn_store.Disk.Files.{FileSystem, IsLawful, IsReliable}
use edge_cdn_store.Disk.World.{World}
use edge_cdn_store.Disk.Hit.{DiskHitHandler, seek}
use edge_cdn_store.Disk.Hit.Read.{InSync, remaining, next_pos}
use edge_cdn_store.Disk.Hit.Serve.{serve_all, serve_all_healthy}

-- The end of a request: the end of the file if it names none.
abbrev pub end_of : Option ℕ → ℕ → ℕ
end_of none total_len = total_len
end_of (some e) total_len = e

module _ (F : FileSystem) where
  -- A range is accepted exactly when it lies within the file and does not run backwards. The end
  -- that is left open is the end of the file.
  pub seek_iff :
      (start : ℕ) (end : Option ℕ) (h : DiskHitHandler F)
      → let e = end_of end h.total_len in
        ((seek F start end h).0 ≡ ok tt) ↔ ((start ≤ e) × (e ≤ h.total_len))
  unfolding seek
  seek_iff start end h = ground arith

  pub seek_err :
      (start : ℕ) (end : Option ℕ) (h : DiskHitHandler F) (x : Failure)
      → (seek F start end h).0 ≡ err x
      → (x ≡ error internal_error) × ((seek F start end h).1 ≡ h)
  unfolding seek
  seek_err start end h x e = ground arith

  pub seek-InSync :
      (start : ℕ) (end : Option ℕ) (h : DiskHitHandler F) (w : World F)
      → InSync F h w
      → (seek F start end h).0 ≡ ok tt
      → InSync F (seek F start end h).1 w
        × (next_pos F (seek F start end h).1 ≡ start)
        × ((seek F start end h).1.range_end ≡ end_of end h.total_len)
        × (remaining F (seek F start end h).1 w
            ≡ take (end_of end h.total_len - start) (drop start (F.content w.fs h.file)))
  unfolding seek
  seek-InSync start end h w s e = ground arith

module _ (F : FileSystem) (L : IsLawful F) where
  -- After a seek to a range within the file a run of reads on a healthy disk ends, and returns
  -- exactly the bytes of the range. Fuel above the length of the file is enough.
  pub serve_all-seek :
      (IsHealthy : F.State → Type 0)
      → IsReliable F IsHealthy
      → (start : ℕ) (end : Option ℕ) (h : DiskHitHandler F) (w : World F) (fuel : ℕ)
      → IsHealthy w.fs
      → InSync F h w
      → start ≤ end_of end h.total_len
      → end_of end h.total_len ≤ h.total_len
      → h.total_len < fuel
      → (h' : DiskHitHandler F) × (w' : World F) × (serve_all F fuel (seek F start end h).1 w
          ≡ some (
            ok (take (end_of end h.total_len - start) (drop start (F.content w.fs h.file))),
            h',
            w',
          ))
  serve_all-seek IsHealthy R start end h w fuel healthy s low high m =
      let accepted = (seek_iff F start end h).1 (low, high) in
      let (sync, at, bound, same) = seek-InSync F start end h w s accepted in
      let (h', w', e) =
        serve_all_healthy F IsHealthy R L fuel (seek F start end h).1 w healthy sync
          (omega arith) in
      (h', w', e ∙ ap (λ bs. some (ok bs, h', w')) same)
