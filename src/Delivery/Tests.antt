-- ===== src/Delivery/Tests.antt =====
-- Requests through the proxy to the disk in memory, and the theorems at concrete requests.
use edge_cdn_store.Common.{ℕ, ◌≤◌, ◌≡◌, ◌≢◌, refl, ◌∷◌, [], none, some, ok, true, false, arith}
use edge_cdn_store.Common.Text.{codes, decimal, text_eq}
use edge_cdn_store.Common.Str.{
  trim, contains_char, split_first, parse_u16, to_ascii_lowercase, contains_text,
}
use edge_cdn_store.Disk.Files.{Bytes}
use edge_cdn_store.Disk.Files.Memory.{
  memory, memory-IsLawful, memory-IsReliable, HasNoFaults, path_eq,
}
use edge_cdn_store.Disk.World.{World}
use edge_cdn_store.Disk.Miss.{
  created, tmp_name, create_tmp, write_body, finish, finish_steps, transfer, commit, drop_handler,
}
use edge_cdn_store.Disk.Miss.Write.{write_pieces}
use edge_cdn_store.Disk.Hit.{DiskHitHandler}
use edge_cdn_store.Disk.Hit.Serve.{serve_all}
use edge_cdn_store.Disk.Store.{get_miss_handler}
use edge_cdn_store.Disk.Paths.{path_from_hash, path_from_key}
use edge_cdn_store.Disk.Samples.{types, types-IsLawful, cache, stamp, empty, pieces}
use edge_cdn_store.Host.{parse_host_authority}
use edge_cdn_store.Host.RoundTrip.{IsName}
use edge_cdn_store.Proxy.{
  Session, EdgeCdnProxy, request_cache_filter, cache_key_callback, upstream_peer,
  response_cache_filter, forbids_store,
}
use edge_cdn_store.Tiered.{tiered_get_miss_handler}
use edge_cdn_store.Delivery.{Answer, find_response, keep_response}
use edge_cdn_store.Delivery.Hit.{at_port, find_response-keep_response, find_response-ports}

abbrev plain : Session
plain = record {
  header = λ name. none;
  server_port = none;
  path_and_query = none;
  upstream_used = true;
}

abbrev proxy : EdgeCdnProxy
proxy = record {
  self_addresses = codes "127.0.0.1:6188" ∷ codes "127.0.0.1:6143" ∷ [];
  listen_http = 6188;
  listen_https = 6143;
}

abbrev answer : Answer
answer = record { status = 200; cache_control = some (codes "public"); body = pieces }

-- The metadata keeps when the answer was stored.
abbrev meta_of : Answer → ℕ → ℕ → Bytes × Bytes
meta_of a expiry now = (now ∷ [], expiry ∷ [])

abbrev first : Session
first = at_port plain (codes "a") 80

abbrev second : Session
second = at_port plain (codes "a") 81

kept :
    (keep_response memory types cache (λ k. k) meta_of proxy stamp 5 first answer empty).0
    ≡ ok (some (created 11))
unfolding keep_response request_cache_filter cache_key_callback parse_host_authority trim
    contains_char split_first parse_u16 text_eq to_ascii_lowercase decimal response_cache_filter
    contains_text tiered_get_miss_handler get_miss_handler path_from_key path_from_hash create_tmp
    write_pieces write_body finish finish_steps transfer commit path_eq tmp_name
kept = refl

abbrev after : World memory
after = (keep_response memory types cache (λ k. k) meta_of proxy stamp 5 first answer empty).1

calm : HasNoFaults after.fs
unfolding keep_response request_cache_filter cache_key_callback parse_host_authority trim
    contains_char split_first parse_u16 text_eq to_ascii_lowercase decimal response_cache_filter
    contains_text tiered_get_miss_handler get_miss_handler path_from_key path_from_hash create_tmp
    write_pieces write_body finish finish_steps transfer commit path_eq tmp_name drop_handler
calm = refl

used : request_cache_filter proxy second ≡ true
unfolding request_cache_filter text_eq decimal
used = refl

same_key : cache_key_callback proxy second ≡ cache_key_callback proxy first
unfolding cache_key_callback parse_host_authority trim contains_char split_first parse_u16 text_eq
    to_ascii_lowercase decimal
same_key = refl

find_response-keep_response_example :
    let d = find_response memory types cache (λ k. k) meta_of proxy stamp second after in
    (200 ≤ 200)
    × (200 ≤ 299)
    × (forbids_store (some (codes "public")) ≡ false)
    × (h : DiskHitHandler memory) × (h' : DiskHitHandler memory) × (w : World memory) × (d.0
        ≡ ok (some ((5 ∷ [], 3605 ∷ []), h)))
    × (serve_all memory 12 h d.1 ≡ some (ok (codes "hello world"), h', w))
find_response-keep_response_example =
    find_response-keep_response memory memory-IsLawful types types-IsLawful cache HasNoFaults
      memory-IsReliable (λ k. k) meta_of proxy stamp stamp 5 12 first second answer empty
      (created 11) kept calm used same_key (omega arith)

named : IsName (codes "a")
unfolding contains_char
named = record { begins = (refl, omega arith); no_slash = refl; no_space = refl; no_colon = refl }

find_response-ports_example :
    let d = find_response memory types cache (λ k. k) meta_of proxy stamp second after in
    (upstream_peer proxy first ≢ upstream_peer proxy second)
    × (h : DiskHitHandler memory) × (h' : DiskHitHandler memory) × (w : World memory) × (d.0
        ≡ ok (some ((5 ∷ [], 3605 ∷ []), h)))
    × (serve_all memory 12 h d.1 ≡ some (ok (codes "hello world"), h', w))
find_response-ports_example =
    find_response-ports memory memory-IsLawful types types-IsLawful cache HasNoFaults
      memory-IsReliable (λ k. k) meta_of proxy stamp stamp 5 12 80 81 plain (codes "a") answer empty
      (created 11) named (omega arith) (omega arith) (omega arith) kept calm used (omega arith)

-- A response that may not be stored.
private_answer :
    (keep_response memory types cache
      (λ k. k)
      meta_of
      proxy
      stamp
      5
      first
      (record answer { cache_control = some (codes "No-Store") })
      empty).0
    ≡ ok none
unfolding keep_response request_cache_filter cache_key_callback parse_host_authority trim
    contains_char split_first parse_u16 text_eq to_ascii_lowercase decimal response_cache_filter
    contains_text
private_answer = refl
