-- ===== src/Disk/Tests.antt =====
-- Runs of the disk cache in memory, and its theorems at concrete data.
mod Entries
mod Statistics
mod Torn
mod Interleaving
use edge_cdn_store.Common.{
  ℕ, ◌+◌, ◌≤◌, ◌<◌, ◌-◌, ◌≡◌, refl, ◌≢◌, ◌⊎◌, ◌↔◌, inl, inr, ◌++◌, List, [], ◌∷◌, none, some, ok,
  err, true, false, arith, concat, length, take, drop,
}
use edge_cdn_store.Common.Text.{codes, decimal, text_eq}
use edge_cdn_store.Common.State.{error, internal_error}
use edge_cdn_store.Disk.Files.Memory.{
  Fault, fine, fails, short, memory, path_eq, HasNoFaults, memory-IsLawful, memory-IsReliable,
}
use edge_cdn_store.Disk.World.{World, inc, inc_by, gauge_sub}
use edge_cdn_store.Disk.Miss.{
  created, tmp_name, create_tmp, write_body, finish, finish_steps, transfer, commit, drop_handler,
  MissFinishType, DiskMissHandler,
}
use edge_cdn_store.Disk.Miss.Write.{write_pieces, Pending}
use edge_cdn_store.Disk.Miss.Finish.{AreSeparate, finish_err}
use edge_cdn_store.Disk.Hit.{DiskHitHandler, read_body, seek}
use edge_cdn_store.Disk.Hit.Read.{InSync, remaining, next_pos, read_body-some}
use edge_cdn_store.Disk.Hit.Serve.{serve_all}
use edge_cdn_store.Disk.Hit.Seek.{seek_iff, serve_all-seek}
use edge_cdn_store.Disk.Store.{lookup, get_miss_handler, purge, update_meta, eviction}
use edge_cdn_store.Disk.Store.Insert.{Stored, store_response, store_response_ok}
use edge_cdn_store.Disk.Store.Lookup.{lookup_sound, lookup_complete, lookup_missing}
use edge_cdn_store.Disk.Store.Purge.{purge_ok, purge-InSync, purge_frame, purge_metrics}
use edge_cdn_store.Disk.Store.Update.{update_meta_ok, update_meta-false}
use edge_cdn_store.Disk.Store.RoundTrip.{serve_all-store_response, Stored-store_response}
use edge_cdn_store.Disk.Paths.{path_from_hash, path_from_key, path_from_compact_key, entry_paths}
use edge_cdn_store.Disk.Paths.Separate.{InEntry, in_body, path_from_hash_iff}
use edge_cdn_store.Disk.Samples.{
  types, types-IsLawful, cache, stamp, empty, empty_with, page, pieces, reading, hit, hit-InSync,
}

-- The world after a response was stored under the empty key.
abbrev after : World memory
after = (store_response memory types cache [] page stamp pieces empty).1

stored_now : (store_response memory types cache [] page stamp pieces empty).0 ≡ ok (created 11)
unfolding store_response get_miss_handler path_from_key path_from_hash create_tmp write_pieces
    write_body finish finish_steps transfer commit path_eq tmp_name decimal
stored_now = refl

after_healthy : HasNoFaults after.fs
unfolding store_response get_miss_handler path_from_key path_from_hash create_tmp write_pieces
    write_body finish finish_steps transfer commit path_eq tmp_name decimal drop_handler
after_healthy = refl

after-Stored :
    Stored memory types cache (codes "abcd") (codes "hello world") (codes "m") (codes "h") after
unfolding store_response get_miss_handler path_from_key path_from_hash create_tmp write_pieces
    write_body finish finish_steps transfer commit path_eq tmp_name decimal drop_handler
after-Stored = record { body_stored = refl; meta_stored = refl; hdr_stored = refl }

-- A fault at the second write stops the storing.
write_fails :
    (store_response memory types cache [] page stamp pieces
      (empty_with (fine ∷ fine ∷ fine ∷ fine ∷ fails ∷ []))).0
    ≡ err (error internal_error)
unfolding store_response get_miss_handler path_from_key path_from_hash create_tmp write_pieces
    write_body finish finish_steps transfer commit path_eq tmp_name decimal drop_handler
write_fails = refl

serve_all-store_response_example :
    let d = lookup memory types cache [] after in
    (h : DiskHitHandler memory) × (h' : DiskHitHandler memory) × (w : World memory) × (d.0
      ≡ ok (some (page, h)))
    × (serve_all memory 12 h d.1 ≡ some (ok (codes "hello world"), h', w))
serve_all-store_response_example =
    serve_all-store_response memory memory-IsLawful types types-IsLawful cache HasNoFaults
      memory-IsReliable [] page stamp pieces empty (created 11) 12 stored_now after_healthy
      (omega arith)

store_response_ok_example :
    (a : List ℕ) × (b : List ℕ) × (types.serialize page ≡ ok (a, b))
    × (created 11 ≡ created 11)
    × Stored memory types cache (codes "abcd") (codes "hello world") a b after
    × (after.metrics
        ≡ record (empty.metrics) { misses = inc 0; inserts = inc 0; size_bytes = inc_by 11 100 })
store_response_ok_example =
    store_response_ok memory memory-IsLawful types cache [] page stamp pieces empty (created 11)
      stored_now

serve_all-seek_example :
    (h' : DiskHitHandler memory) × (w' : World memory) × (serve_all memory 12
        (seek memory 6 (some 9) hit).1
        reading
      ≡ some (ok (codes "wor"), h', w'))
serve_all-seek_example =
    serve_all-seek memory memory-IsLawful HasNoFaults memory-IsReliable 6 (some 9) hit reading 12
      refl hit-InSync (omega arith) (omega arith) (omega arith)

read_first :
    read_body memory hit reading
    ≡ (ok (some (codes "hell")), (read_body memory hit reading).1, (read_body memory hit reading).2)
unfolding read_body
read_first = refl

read_body-some_example :
    let d = read_body memory hit reading in
    InSync memory d.1 d.2
    × (remaining memory hit reading ≡ codes "hell" ++ remaining memory d.1 d.2)
    × (0 < 4)
    × (4 ≤ 4)
    × (d.1.range_end ≡ 11)
    × (next_pos memory d.1 ≡ 0 + 4)
read_body-some_example =
    read_body-some memory memory-IsLawful hit (read_body memory hit reading).1 reading
      (read_body memory hit reading).2 (codes "hell") hit-InSync read_first
