-- ===== src/Tiered/FanOut/Tests.antt =====
-- Two handlers over one file system in memory, of which a call fails.
use edge_cdn_store.Common.{ℕ, ◌≡◌, ◌≢◌, ap, refl, [], ◌∷◌, ◌++◌, some, ok, err, false, arith}
use edge_cdn_store.Common.Text.{Text, codes}
use edge_cdn_store.Common.State.{panicked}
use edge_cdn_store.Disk.Files.{FilePath, other}
use edge_cdn_store.Disk.Files.Memory.{fine, fails, memory, memory-IsLawful, path_eq}
use edge_cdn_store.Disk.World.{World}
use edge_cdn_store.Disk.Miss.{
  DiskMissHandler, write_body, finish, finish_steps, transfer, commit, drop_handler,
}
use edge_cdn_store.Disk.Miss.Write.{Pending}
use edge_cdn_store.Disk.Samples.{empty}
use edge_cdn_store.Tiered.FanOut.{fan_write_body, disk_miss}
use edge_cdn_store.Tiered.FanOut.Outcome.{fan_write_body_gap}

abbrev handler_at : Text → DiskMissHandler
handler_at name = record {
  tmp_path = name ∷ [];
  tmp_bytes_written = 0;
  dir = [];
  body_path = codes "body" ∷ name ∷ [];
  meta_path = codes "meta" ∷ name ∷ [];
  hdr_path = codes "hdr" ∷ name ∷ [];
  meta_internal = [];
  meta_header = [];
}

-- Every file exists and is empty, and the third call fails.
abbrev unsteady : World memory
unsteady = record empty {
  fs = record (empty.fs) { named = λ p. some []; script = fine ∷ fine ∷ fails ∷ [] };
}

wrote_now :
    (write_body memory (codes "ab") false (handler_at (codes "p")) unsteady).0
    ≡ ok (record (handler_at (codes "p")) { tmp_bytes_written = 2 })
unfolding write_body
wrote_now = refl

refused_now :
    (memory.open_append
      (codes "s" ∷ [])
      (write_body memory (codes "ab") false (handler_at (codes "p")) unsteady).1.fs).0
    ≡ err other
unfolding write_body
refused_now = refl

apart_now : ◌≢◌ {A = FilePath} (codes "s" ∷ []) (codes "p" ∷ [])
apart_now e = absurd (omega (arith, ap first e))
  where
    first : FilePath → ℕ
    first ((c ∷ s) ∷ p) = c
    first _ = 0

fan_write_body_gap_example :
    let d =
      fan_write_body
        (disk_miss memory)
        (codes "ab")
        false
        (record {
          primary = some (handler_at (codes "p"));
          secondary = some (handler_at (codes "s"));
        })
        unsteady in
    (d.0 ≡ ok tt)
    × (d.1 ≡ record {
      primary = some (record (handler_at (codes "p")) { tmp_bytes_written = 2 });
      secondary = some (handler_at (codes "s"));
    })
    × Pending memory
        (record (handler_at (codes "p")) { tmp_bytes_written = 2 })
        ([] ++ codes "ab")
        d.2
    × Pending memory (handler_at (codes "s")) [] d.2
fan_write_body_gap_example =
    fan_write_body_gap memory memory-IsLawful (handler_at (codes "p"))
      (record (handler_at (codes "p")) { tmp_bytes_written = 2 }) (handler_at (codes "s")) [] []
      (codes "ab") false unsteady other (record { stored = refl; counted = refl })
      (record { stored = refl; counted = refl }) apart_now wrote_now refused_now

calm_now :
    (finish memory (handler_at (codes "s")) (finish memory (handler_at (codes "p")) unsteady).1).0
    ≢ err panicked
unfolding finish finish_steps transfer commit drop_handler path_eq
calm_now e = absurd (cc e)
