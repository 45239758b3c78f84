-- ===== src/Disk/Tests/Entries.antt =====
-- Theorems on looking up, removing and rewriting entries, at concrete data.
use edge_cdn_store.Common.{
  ◌≡◌, refl, ◌≢◌, ◌⊎◌, [], none, some, ok, true, false, is_ok, ap, arith, length,
}
use edge_cdn_store.Common.Text.{codes, decimal}
use edge_cdn_store.Disk.Files.{Bytes}
use edge_cdn_store.Disk.Files.Memory.{
  memory, path_eq, HasNoFaults, memory-IsLawful, memory-IsReliable,
}
use edge_cdn_store.Disk.World.{World, inc}
use edge_cdn_store.Disk.Miss.{
  created, tmp_name, create_tmp, write_body, finish, finish_steps, transfer, commit, drop_handler,
}
use edge_cdn_store.Disk.Miss.Write.{write_pieces}
use edge_cdn_store.Disk.Hit.{DiskHitHandler}
use edge_cdn_store.Disk.Hit.Read.{InSync, remaining}
use edge_cdn_store.Disk.Store.{lookup, get_miss_handler, purge, update_meta, eviction}
use edge_cdn_store.Disk.Store.Insert.{Stored, store_response}
use edge_cdn_store.Disk.Store.InFlight.{begin_response, begin_response_frame}
use edge_cdn_store.Disk.Store.Lookup.{lookup_sound, lookup_complete}
use edge_cdn_store.Disk.Hit.Serve.{serve_all}
use edge_cdn_store.Disk.Store.Gone.{lookup-purge, serve_all-purge}
use edge_cdn_store.Disk.Store.Entries.{
  Calls, none_yet, and_then, stored, looked_up, removed, entries, effects, Calls-entries,
}
use edge_cdn_store.Disk.Store.RoundTrip.{Stored-store_response}
use edge_cdn_store.Disk.Paths.{path_from_hash, path_from_key, path_from_compact_key, entry_paths}
use edge_cdn_store.Disk.Paths.Separate.{in_body}
use edge_cdn_store.Disk.Samples.{types, types-IsLawful, cache, stamp, empty, page, pieces}
use edge_cdn_store.Disk.Tests.{stored_now, after, after_healthy, after-Stored}

abbrev found : DiskHitHandler memory
found = record {
  file = 0;
  total_len = 11;
  range_start = 0;
  range_end = 11;
  pos = 0;
  pending_seek = false;
  chunk = 262144;
}

found_now : (lookup memory types cache [] after).0 ≡ ok (some (page, found))
unfolding lookup store_response get_miss_handler path_from_key path_from_hash create_tmp
    write_pieces write_body finish finish_steps transfer commit path_eq tmp_name decimal
    drop_handler
found_now = refl

lookup_sound_example :
    (page ≡ page)
    × InSync memory found (lookup memory types cache [] after).1
    × (remaining memory found (lookup memory types cache [] after).1 ≡ codes "hello world")
lookup_sound_example =
    lookup_sound memory memory-IsLawful types types-IsLawful cache [] page page
      (codes "hello world") (codes "m") (codes "h") after found after-Stored refl found_now

lookup_complete_example :
    (h : DiskHitHandler memory) × ((lookup memory types cache [] after).0 ≡ ok (some (page, h)))
    × ((lookup memory types cache [] after).1.metrics
        ≡ record (after.metrics) { lookup_hits = inc after.metrics.lookup_hits })
    × HasNoFaults (lookup memory types cache [] after).1.fs
lookup_complete_example =
    lookup_complete memory memory-IsLawful types types-IsLawful cache HasNoFaults memory-IsReliable
      [] page (codes "hello world") (codes "m") (codes "h") after after_healthy after-Stored refl

other_key : codes "abcd" ≢ codes "abcdx"
other_key e = absurd (omega (arith, ap length e))

Stored-store_response_example :
    Stored memory types cache
      (codes "abcd")
      (codes "hello world")
      (codes "m")
      (codes "h")
      (store_response memory types cache (codes "x") page stamp pieces after).1
Stored-store_response_example =
    Stored-store_response memory memory-IsLawful types types-IsLawful cache (codes "x") page stamp
      pieces after (codes "abcd") (codes "hello world") (codes "m") (codes "h") other_key
      after-Stored

lookup-purge_example :
    let q = entry_paths cache (codes "abcd") in
    let d = purge memory types cache [] eviction after in
    ((d.0 ≡ ok true)
      × (memory.file after.fs q.body ≢ none)
      × (memory.file d.1.fs q.body ≡ none)
      × ((hit : (Bytes × Bytes) × DiskHitHandler memory)
          → (lookup memory types cache [] d.1).0 ≢ ok (some hit)))
    ⊎ ((d.0 ≡ ok false) × (memory.file d.1.fs q.body ≡ memory.file after.fs q.body))
lookup-purge_example =
    lookup-purge memory memory-IsLawful types types-IsLawful cache [] eviction after

removed_now : (purge memory types cache [] eviction after).0 ≡ ok true
unfolding purge path_from_compact_key store_response get_miss_handler path_from_key path_from_hash
    create_tmp write_pieces write_body finish finish_steps transfer commit path_eq tmp_name decimal
    drop_handler
removed_now = refl

measured_now : is_ok (memory.metadata_len (entry_paths cache (codes "abcd")).body after.fs).0 ≡ true
unfolding store_response get_miss_handler path_from_key path_from_hash create_tmp write_pieces
    write_body finish finish_steps transfer commit path_eq tmp_name decimal drop_handler
measured_now = refl

updated_now : (update_meta memory types cache [] (codes "m2", codes "h2") after).0 ≡ ok true
unfolding update_meta store_response get_miss_handler path_from_key path_from_hash create_tmp
    write_pieces write_body finish finish_steps transfer commit path_eq tmp_name decimal
    drop_handler
updated_now = refl

begin_response_frame_example :
    let p = (entry_paths cache (codes "abcd")).body in
    memory.file (begin_response memory types cache [] page stamp pieces after).1.fs p
    ≡ memory.file after.fs p
begin_response_frame_example =
    begin_response_frame memory memory-IsLawful types cache [] page stamp pieces after
      (codes "abcd") _ in_body

removed_next :
    (purge memory types cache [] eviction (lookup memory types cache [] after).1).0 ≡ ok true
unfolding purge lookup path_from_compact_key store_response get_miss_handler path_from_key
    path_from_hash create_tmp write_pieces write_body finish finish_steps transfer commit path_eq
    tmp_name decimal drop_handler
removed_next = refl

purged_healthy :
    HasNoFaults (purge memory types cache [] eviction (lookup memory types cache [] after).1).1.fs
unfolding purge lookup path_from_compact_key store_response get_miss_handler path_from_key
    path_from_hash create_tmp write_pieces write_body finish finish_steps transfer commit path_eq
    tmp_name decimal drop_handler
purged_healthy = refl

serve_all-purge_example :
    let w = (purge memory types cache [] eviction (lookup memory types cache [] after).1).1 in
    ((again : (Bytes × Bytes) × DiskHitHandler memory)
      → (lookup memory types cache [] w).0 ≢ ok (some again))
    × (h' : DiskHitHandler memory) × (w' : World memory) × (serve_all memory 12 found w
        ≡ some (ok (codes "hello world"), h', w'))
serve_all-purge_example =
    serve_all-purge memory memory-IsLawful types types-IsLawful cache HasNoFaults memory-IsReliable
      [] eviction page page (codes "hello world") (codes "m") (codes "h") after found 12
      after-Stored refl found_now removed_next purged_healthy (omega arith)

-- A response is stored, looked up and purged.
abbrev three_calls :
    Calls memory types cache empty
      (purge memory types cache [] eviction (lookup memory types cache [] after).1).1
three_calls =
    and_then
      (and_then
        (and_then none_yet
          (stored [] page stamp pieces (created 11) (codes "m") (codes "h") refl stored_now))
        (looked_up []))
      (removed [] eviction removed_next)

Calls-entries_example :
    entries memory types cache
      (purge memory types cache [] eviction (lookup memory types cache [] after).1).1
    ≡ effects memory types cache three_calls (entries memory types cache empty)
Calls-entries_example = Calls-entries memory memory-IsLawful types types-IsLawful cache three_calls
