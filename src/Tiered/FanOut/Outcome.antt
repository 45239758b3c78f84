-- ===== src/Tiered/FanOut/Outcome.antt =====
-- What the handler of both tiers makes of the outcomes of the two.
use edge_cdn_store.Common.{
  ap, ◌∙◌, ◌≡◌, ◌≢◌, ◌⊎◌, inl, inr, Bool, Option, none, some, ok, err, ◌++◌, arith, Result-cases,
}
use edge_cdn_store.Common.State.{Failure, error, panicked, internal_error}
use edge_cdn_store.Disk.Files.{Bytes, FilePath, FileSystem, IoError, IsLawful}
use edge_cdn_store.Disk.World.{World}
use edge_cdn_store.Disk.Miss.{DiskMissHandler, MissFinishType, write_body}
use edge_cdn_store.Disk.Miss.Write.{Pending, write_body_ok, write_body_frame}
use edge_cdn_store.Tiered.FanOut.{HandleMiss, fan_write_body, fan_finish, disk_miss}

module _ {W H : Type 0} (O : HandleMiss W H) where
  -- The secondary, if there is one, at this state; nothing if there is none.
  abbrev pub after : Option H → (H → W → W) → W → W
  after none f w = w
  after (some s) f w = f s w

  abbrev pub Calm : Option H → W → Type 0
  Calm none w = Unit
  Calm (some s) w = (O.end s w).0 ≢ err panicked

  -- The result is the primary's. If the primary was finished, the secondary is finished after it,
  -- and its error, if it is not a panic, is ignored; if the primary failed, the secondary is
  -- dropped and not finished.
  pub fan_finish_lem :
      (p : H) (sec : Option H) (w : W)
      → Calm sec (O.end p w).1
      → let d = fan_finish O (record { primary = some p; secondary = sec }) w in
        (d.0 ≡ (O.end p w).0)
        × (((r : MissFinishType) × ((O.end p w).0 ≡ ok r)
              × (d.1 ≡ after sec (λ s v. (O.end s v).1) (O.end p w).1))
            ⊎ ((e : Failure) × ((O.end p w).0 ≡ err e) × (d.1 ≡ after sec O.discard (O.end p w).1)))
  unfolding fan_finish
  fan_finish_lem p none w calm = elim (Result-cases (O.end p w).0) [
    | inl (r, e) ↦ (ground arith, inl (r, e, ground arith))
    | inr (x, e) ↦ (ground arith, inr (x, e, ground arith))
  ]
  fan_finish_lem p (some s) w calm = elim (Result-cases (O.end p w).0) [
    | inl (r, e) ↦ (ground arith, inl (r, e, ground arith))
    | inr (x, e) ↦ (ground arith, inr (x, e, ground arith))
  ]

module _ (F : FileSystem) (L : IsLawful F) where
  refused_write :
      (b : Bytes) (is_eof : Bool) (s : DiskMissHandler) (w : World F) (x : IoError)
      → (F.open_append s.tmp_path w.fs).0 ≡ err x
      → ((write_body F b is_eof s w).0 ≡ err (error internal_error))
        × ((write_body F b is_eof s w).1 ≡ record w { fs = (F.open_append s.tmp_path w.fs).1 })
  unfolding write_body
  refused_write b is_eof s w x refused = ground arith

  fan_write_body_run :
      (p p' s : DiskMissHandler) (b : Bytes) (is_eof : Bool) (w : World F)
      → (write_body F b is_eof p w).0 ≡ ok p'
      → (write_body F b is_eof s (write_body F b is_eof p w).1).0 ≡ err (error internal_error)
      → let d =
          fan_write_body
            (disk_miss F)
            b
            is_eof
            (record { primary = some p; secondary = some s })
            w in
        (d.0 ≡ ok tt)
        × (d.1 ≡ record { primary = some p'; secondary = some s })
        × (d.2 ≡ (write_body F b is_eof s (write_body F b is_eof p w).1).1)
  unfolding fan_write_body
  fan_write_body_run p p' s b is_eof w wrote failed = ground arith

  -- A piece of the body that the primary has written, while the temporary file of the secondary
  -- could not be opened: the call reports success, and the secondary stays ready to be finished,
  -- with this piece missing from its body.
  pub fan_write_body_gap :
      (p p' s : DiskMissHandler) (bytes bytes' b : Bytes) (is_eof : Bool) (w : World F)
      (x : IoError)
      → Pending F p bytes w
      → Pending F s bytes' w
      → s.tmp_path ≢ p.tmp_path
      → (write_body F b is_eof p w).0 ≡ ok p'
      → (F.open_append s.tmp_path (write_body F b is_eof p w).1.fs).0 ≡ err x
      → let d =
          fan_write_body
            (disk_miss F)
            b
            is_eof
            (record { primary = some p; secondary = some s })
            w in
        (d.0 ≡ ok tt)
        × (d.1 ≡ record { primary = some p'; secondary = some s })
        × Pending F p' (bytes ++ b) d.2
        × Pending F s bytes' d.2
  fan_write_body_gap p p' s bytes bytes' b is_eof w x pending pending' apart wrote refused =
      let w1 = (write_body F b is_eof p w).1 in
      let (said, left) = refused_write b is_eof s w1 x refused in
      let same = fan_write_body_run p p' s b is_eof w wrote said in
      let first = write_body_ok F L b is_eof p p' bytes w pending wrote in
      let keep = λ (q : FilePath).
        ap (λ v. F.file v.fs q) (same.2 ∙ left) ∙ L.file-open_append s.tmp_path q w1.fs in
      (
        same.0,
        same.1,
        record { stored = keep p'.tmp_path ∙ first.stored; counted = first.counted },
        record {
          stored =
              keep s.tmp_path
              ∙ write_body_frame F L b is_eof p w s.tmp_path apart
              ∙ pending'.stored;
          counted = pending'.counted;
        },
      )
