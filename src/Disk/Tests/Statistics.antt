-- ===== src/Disk/Tests/Statistics.antt =====
-- A restart of a cache in memory, whose statistics are four numbers in a file.
use edge_cdn_store.Common.{
  ◌-◌, ◌≡◌, refl, [], ◌∷◌, Option, none, some, Result, ok, err, is_ok, true, if◌then◌else◌, arith,
}
use edge_cdn_store.Common.Text.{codes, decimal, text_eq}
use edge_cdn_store.Disk.Files.{Bytes, other, not_found, IoError}
use edge_cdn_store.Disk.Files.Memory.{
  memory, path_eq, path_eq_iff, HasNoFaults, memory-IsLawful, memory-IsReliable,
}
use edge_cdn_store.Disk.World.{World, new_metrics, u64_mod}
use edge_cdn_store.Disk.Paths.{entry_paths, path_from_hash, path_from_key, path_from_compact_key}
use edge_cdn_store.Disk.Miss.{
  tmp_name, create_tmp, write_body, finish, finish_steps, transfer, commit, drop_handler,
}
use edge_cdn_store.Disk.Miss.Write.{write_pieces}
use edge_cdn_store.Disk.Store.{lookup, get_miss_handler, purge, eviction}
use edge_cdn_store.Disk.Store.Insert.{store_response}
use edge_cdn_store.Disk.Statistics.{
  CacheStatistics, Json, state_path, statistics_of, persist, fetch_cache_state, new_cache,
}
use edge_cdn_store.Disk.Statistics.ColdStart.{new_cache-purge}
use edge_cdn_store.Disk.Statistics.Restart.{IsLawfulJson, new_cache-persist, serve_all-new_cache}
use edge_cdn_store.Common.State.{panicked}
use edge_cdn_store.Disk.Registry.{register_all, registered_metrics}
use edge_cdn_store.Disk.Samples.{types, types-IsLawful, cache, names}
use edge_cdn_store.Disk.Hit.{DiskHitHandler}
use edge_cdn_store.Disk.Hit.Serve.{serve_all}
use edge_cdn_store.Disk.Tests.{after, after-Stored}

abbrev encode : CacheStatistics → Option Bytes
encode cs =
    if path_eq cs.root cache.root
    then some (cs.start_time ∷ cs.uptime ∷ cs.size_bytes_current ∷ cs.size_bytes_max ∷ [])
    else none

abbrev decode : Bytes → Result IoError CacheStatistics
decode (a ∷ b ∷ c ∷ d ∷ []) = ok (record {
  root = cache.root;
  start_time = a;
  uptime = b;
  size_bytes_current = c;
  size_bytes_max = d;
})
decode _ = err other

abbrev json : Json memory
json = record { to_string_pretty = encode; from_reader = λ h s. (decode (s.opened h), s) }

json-IsLawful : IsLawfulJson memory json HasNoFaults
json-IsLawful = record {
  file-from_reader = λ h p s. refl;
  from_reader-to_string_pretty =
      λ h cs text s healthy e f g. ground (arith, path_eq_iff cs.root cache.root);
}

abbrev numbers : CacheStatistics
numbers = record {
  root = cache.root;
  start_time = 0;
  uptime = 7;
  size_bytes_current = 111;
  size_bytes_max = 5000;
}

numbers_now : (statistics_of memory json cache 5000 7 after).0 ≡ ok numbers
unfolding statistics_of store_response get_miss_handler path_from_key path_from_hash create_tmp
    write_pieces write_body finish finish_steps transfer commit path_eq tmp_name decimal
    drop_handler
numbers_now = refl

encoded_now : encode numbers ≡ some (0 ∷ 7 ∷ 111 ∷ 5000 ∷ [])
unfolding path_eq
encoded_now = refl

written_now :
    is_ok (memory.write (state_path cache.root) (0 ∷ 7 ∷ 111 ∷ 5000 ∷ []) after.fs).0 ≡ true
unfolding store_response get_miss_handler path_from_key path_from_hash create_tmp write_pieces
    write_body finish finish_steps transfer commit path_eq tmp_name decimal drop_handler
written_now = refl

healthy_now : HasNoFaults (persist memory json cache 5000 7 after).1.fs
unfolding persist statistics_of store_response get_miss_handler path_from_key path_from_hash
    create_tmp write_pieces write_body finish finish_steps transfer commit path_eq tmp_name decimal
    drop_handler
healthy_now = refl

small_now : after.metrics.size_bytes ≡ 111
unfolding store_response get_miss_handler path_from_key path_from_hash create_tmp write_pieces
    write_body finish finish_steps transfer commit path_eq tmp_name decimal drop_handler
small_now = refl

new_cache-persist_example :
    (new_cache memory json cache.root 9 (persist memory json cache 5000 7 after).1.fs).1.metrics
    ≡ record (new_metrics 0) { size_bytes = after.metrics.size_bytes }
new_cache-persist_example =
    new_cache-persist memory memory-IsLawful json HasNoFaults memory-IsReliable json-IsLawful cache
      5000 7 9 after numbers (0 ∷ 7 ∷ 111 ∷ 5000 ∷ []) numbers_now encoded_now written_now
      healthy_now (omega (arith, small_now))

restarted_healthy :
    HasNoFaults
      (new_cache memory json cache.root 9 (persist memory json cache 5000 7 after).1.fs).1.fs
unfolding store_response get_miss_handler path_from_key path_from_hash create_tmp write_pieces
    write_body finish finish_steps transfer commit path_eq tmp_name decimal drop_handler new_cache
    persist fetch_cache_state statistics_of
restarted_healthy = refl

serve_all-new_cache_example :
    let e = new_cache memory json cache.root 9 (persist memory json cache 5000 7 after).1.fs in
    let d = lookup memory types e.0 [] e.1 in
    (h : DiskHitHandler memory) × (h' : DiskHitHandler memory) × (w : World memory) × (d.0
      ≡ ok (some ((codes "m", codes "h"), h)))
    × (serve_all memory 12 h d.1 ≡ some (ok (codes "hello world"), h', w))
serve_all-new_cache_example =
    serve_all-new_cache memory memory-IsLawful json HasNoFaults memory-IsReliable json-IsLawful
      types types-IsLawful cache 5000 7 9 after [] (codes "m", codes "h") (codes "hello world")
      (codes "m") (codes "h") 12 after-Stored refl restarted_healthy (omega arith)

-- A start after a crash: the entry is on disk, the statistics are not.
abbrev cold : World memory
cold = (new_cache memory json cache.root 9 after.fs).1

abbrev below_zero : CacheStatistics
below_zero = record {
  root = cache.root;
  start_time = 9;
  uptime = 3;
  size_bytes_current = u64_mod - 11;
  size_bytes_max = 5000;
}

no_statistics : (fetch_cache_state memory json cache.root after.fs).0 ≡ err not_found
unfolding fetch_cache_state store_response get_miss_handler path_from_key path_from_hash create_tmp
    write_pieces write_body finish finish_steps transfer commit path_eq tmp_name decimal
    drop_handler
no_statistics = refl

body_there :
    memory.file after.fs
      (entry_paths (new_cache memory json cache.root 9 after.fs).0 (codes "abcd")).body
    ≡ some (codes "hello world")
unfolding new_cache store_response get_miss_handler path_from_key path_from_hash create_tmp
    write_pieces write_body finish finish_steps transfer commit path_eq tmp_name decimal
    drop_handler
body_there = refl

measured_now :
    is_ok
      (memory.metadata_len
        (entry_paths (new_cache memory json cache.root 9 after.fs).0 (codes "abcd")).body
        cold.fs).0
    ≡ true
unfolding new_cache fetch_cache_state store_response get_miss_handler path_from_key path_from_hash
    create_tmp write_pieces write_body finish finish_steps transfer commit path_eq tmp_name decimal
    drop_handler
measured_now = refl

purged_now :
    (purge memory types (new_cache memory json cache.root 9 after.fs).0 [] eviction cold).0
    ≡ ok true
unfolding purge path_from_compact_key new_cache fetch_cache_state new_metrics store_response
    get_miss_handler path_from_key path_from_hash create_tmp write_pieces write_body finish
    finish_steps transfer commit path_eq tmp_name decimal drop_handler
purged_now = refl

below_zero_now :
    (statistics_of memory json
      (new_cache memory json cache.root 9 after.fs).0
      5000
      12
      (purge memory types (new_cache memory json cache.root 9 after.fs).0 [] eviction cold).1).0
    ≡ ok below_zero
unfolding statistics_of purge path_from_compact_key new_cache fetch_cache_state new_metrics
    store_response get_miss_handler path_from_key path_from_hash create_tmp write_pieces write_body
    finish finish_steps transfer commit path_eq tmp_name decimal drop_handler
below_zero_now = refl

new_cache-purge_example : below_zero.size_bytes_current ≡ u64_mod - 11
new_cache-purge_example =
    new_cache-purge memory memory-IsLawful json HasNoFaults memory-IsReliable json-IsLawful types
      types-IsLawful cache.root 9 12 5000 after.fs not_found [] eviction (codes "hello world")
      below_zero no_statistics body_there (omega arith) (omega arith) measured_now purged_now
      below_zero_now

twice_registered : (registered_metrics names 9 (registered_metrics names 7 []).1).0 ≡ err panicked
unfolding registered_metrics register_all text_eq
twice_registered = refl
