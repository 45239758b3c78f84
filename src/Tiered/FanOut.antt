-- ===== src/Tiered/FanOut.antt =====
-- A miss handler that writes to both tiers (src/tiered/fan_out.rs). No module of the program takes
-- this file in.
pub mod Outcome
mod Tests
use edge_cdn_store.Common.{Bool, Option, none, some, Result, ok, err}
use edge_cdn_store.Common.State.{M, Failure, error, panicked, trace_fn_exit_with_err}
use edge_cdn_store.Disk.Files.{Bytes, FileSystem}
use edge_cdn_store.Disk.World.{World}
use edge_cdn_store.Disk.Miss.{DiskMissHandler, MissFinishType, write_body, finish, drop_handler}

-- The trait `HandleMiss`: `write_body` changes the handler, `finish` consumes it, and a handler
-- that is not finished is dropped.
pub record HandleMiss (W H : Type 0) : Type 0 where
  pub write : Bytes → Bool → H → W → Result Failure (Unit {0}) × H × W
  pub end : H → M W MissFinishType
  pub discard : H → W → W

-- The number of bytes that the primary reported is kept in the handler too, which nothing reads.
pub record FanoutMiss (H : Type 0) : Type 0 where
  pub primary : Option H
  pub secondary : Option H

module _ {W H : Type 0} (O : HandleMiss W H) where
  abbrev pub Written : Type 0
  Written = Result Failure (Unit {0}) × FanoutMiss H × W

  -- An error of the secondary is logged and ignored. A panic is not caught.
  abbrev ignored : {A : Type 0} → A → {B : Type 0} → Result Failure B → Result Failure A
  ignored a (ok b) = ok a
  ignored a (err (error e)) = ok a
  ignored a (err panicked) = err panicked

  write_secondary : Bytes → Bool → FanoutMiss H → Option H → W → Written
  write_secondary bytes is_eof me none w = (ok tt, me, w)
  write_secondary bytes is_eof me (some s) w =
      let d = O.write bytes is_eof s w in (ignored tt d.0, record me { secondary = some d.1 }, d.2)

  after_primary : Bytes → Bool → FanoutMiss H → Result Failure (Unit {0}) → W → Written
  unfolding write_secondary
  after_primary bytes is_eof me (ok _) w = write_secondary bytes is_eof me me.secondary w
  after_primary bytes is_eof me (err e) w = (err e, me, w)

  write_primary : Bytes → Bool → FanoutMiss H → Option H → W → Written
  unfolding after_primary
  write_primary bytes is_eof me none w = (trace_fn_exit_with_err none, me, w)
  write_primary bytes is_eof me (some p) w =
      let d = O.write bytes is_eof p w in
      after_primary bytes is_eof (record me { primary = some d.1 }) d.0 d.2

  unfoldable pub fan_write_body : Bytes → Bool → FanoutMiss H → W → Written
  unfolding write_primary
  fan_write_body bytes is_eof me w = write_primary bytes is_eof me me.primary w

  discard_secondary : Option H → W → W
  discard_secondary none w = w
  discard_secondary (some s) w = O.discard s w

  finish_secondary : MissFinishType → Option H → M W MissFinishType
  finish_secondary result none w = (ok result, w)
  finish_secondary result (some s) w = (ignored result (O.end s w).0, (O.end s w).1)

  primary_finished : Option H → Result Failure MissFinishType → M W MissFinishType
  unfolding finish_secondary discard_secondary
  primary_finished secondary (ok result) w = finish_secondary result secondary w
  primary_finished secondary (err e) w = (err e, discard_secondary secondary w)

  finish_primary : Option H → Option H → M W MissFinishType
  unfolding primary_finished
  finish_primary none secondary w = (trace_fn_exit_with_err none, discard_secondary secondary w)
  finish_primary (some p) secondary w = primary_finished secondary (O.end p w).0 (O.end p w).1

  unfoldable pub fan_finish : FanoutMiss H → M W MissFinishType
  unfolding finish_primary
  fan_finish me = finish_primary me.primary me.secondary

-- The disk cache's miss handler as such a handler. A `write_body` that fails leaves it as it was.
module _ (F : FileSystem) where
  abbrev kept : DiskMissHandler → Result Failure DiskMissHandler → DiskMissHandler
  kept h (ok h') = h'
  kept h (err e) = h

  abbrev forget : {A : Type 0} → Result Failure A → Result Failure (Unit {0})
  forget (ok a) = ok tt
  forget (err e) = err e

  abbrev pub disk_miss : HandleMiss (World F) DiskMissHandler
  disk_miss = record {
    write =
        λ bytes is_eof h w. let d = write_body F bytes is_eof h w in (forget d.0, kept h d.0, d.1);
    end = finish F;
    discard = drop_handler F;
  }
