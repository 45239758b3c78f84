-- ===== src/Lib.antt =====
-- edge-cdn-store: a caching reverse proxy on pingora, with a cache on disk.
--
-- The program. For a request the proxy decides whether the cache is used, computes its key, and,
-- on a miss, the peer to fetch from; a response is then admitted to the cache or not. The cache is
-- a tiered storage, of a primary and an optional secondary; the server runs with the disk cache as
-- primary and with no secondary. The disk cache keeps three files for an entry, the body and two
-- for the metadata, in a directory named by the hash of the key. A miss handler writes the body to
-- a temporary file and promotes it in `finish`; a hit handler reads the body in chunks, from a
-- position that a deferred seek may change. All of them share the metrics.
--
-- The files.
--   Common         the names of the library that are used, lists and text over the native numbers,
--                  the monad of stateful code that may fail (Common/State: errors of pingora and
--                  panics), the text functions of the standard library of Rust (Common/Str).
--   Disk/Files     the file system, an interface: the operations of tokio::fs and std::fs that the
--                  cache uses, `IsLawful` for what each documents when it succeeds or fails, and
--                  `IsReliable` for a state from which reading succeeds. Disk/Files/Memory is an
--                  instance with a script of faults.
--   Disk/Statistics  src/disk_cache/cache_statistics.rs, and DiskCache::new of
--                  src/disk_cache/mod.rs; serde_json is the parameter `Json`.
--   Disk/Interleaving  many requests at once: each call of the storage or of a handler is a step,
--                  and `Reach` the states that steps in any order reach (Publish for what a finish
--                  publishes, Accounting for the metrics).
--   Disk/Overlap   `finish` of src/disk_cache/handle_miss.rs, with other tasks that run whenever it
--                  awaits the file system.
--   Disk/World     src/metrics.rs, and the types of pingora_cache as parameters (`CacheTypes`).
--   Disk/Registry  src/metrics.rs, CacheMetrics::new with the registration of the metrics.
--   Disk/Paths     src/disk_cache/mod.rs, `DiskCache` and `path_from_hash`.
--   Disk/Miss      src/disk_cache/handle_miss.rs: create_tmp, write_body, finish, and drop_handler
--                  for `Drop`.
--   Disk/Hit       src/disk_cache/handle_hit.rs: read_body, seek, finish_hit for `finish`,
--                  can_seek, get_eviction_weight.
--   Disk/Store     src/disk_cache/mod.rs, `impl Storage`: lookup, get_miss_handler, purge,
--                  update_meta. `store_response` (Disk/Store/Insert) is the sequence of calls by
--                  which pingora stores a response, `begin_response` (Disk/Store/InFlight) its part
--                  before `finish`, and `serve_all` (Disk/Hit/Serve) the calls by which it reads
--                  an entry to its end. Disk/Store/Entries has the cache as a map from hashes to
--                  entries.
--   Host           src/utils.rs, parse_host_authority.
--   Proxy          src/proxy.rs: upstream_peer, request_cache_filter, cache_key_callback,
--                  response_cache_filter, response_filter; src/utils.rs, scheme_from_hdr.
--   Utils          the other functions of src/utils.rs: the environment, html_escape, hex2str, and
--                  the texts of keys.
--   Startup        src/statics.rs and eviction_manager_cfg of src/disk_cache/mod.rs, as cells that
--                  are set at their first use. Startup/Cells: the cells for the cache, its tiers
--                  and the eviction manager (src/disk_cache/mod.rs, src/tiered/mod.rs).
--                  Startup/Main: src/main.rs up to run_forever.
--   Logging        src/logger.rs, and the panic hook of src/main.rs.
--   Inspector      src/inspector: display_disk_cache.rs (Inspector/Files for handle_req and
--                  resolve_under_root, Inspector/Listing for render_dir_listing), routes.rs over
--                  what warp says of a request (Inspector/Routes), the stop service of mod.rs
--                  (Inspector/Stop). Inspector/Path has the paths and components of std::path.
--   Tiered/FanOut  src/tiered/fan_out.rs, which is in no module of the program.
--   Tiered         src/tiered/mod.rs: the four operations of `impl Storage for TieredStorage`, with
--                  the prefix `tiered_`, and tiered_cache.
--   Delivery       the calls by which pingora asks the proxy and then the tiers for a request, from
--                  its session to the files.
-- A long handler is a function for each stage, and the stages are composed in the order of the
-- code. An asynchronous call is a step of the state, which is the file system and the metrics.
--
-- Bounds and fuel. `serve_all` runs on fuel. Each call that returns bytes returns at least one, so
-- fuel above the number of bytes left is enough, which the theorems on it prove. Counters wrap at
-- 64 bits; the gauge is kept as the 64-bit pattern of the signed number. Lengths and positions in
-- files are natural numbers, and the casts between u64 and usize are those of a 64-bit machine.
--
-- What is assumed. The three reads of a lookup, which the code joins, are made in the order they
-- are written. In Disk/Interleaving a call of the storage or of a handler is one step, and the calls
-- come in any order; the clock moves between two responses that are begun for one entry and are
-- open together. In Disk/Overlap other tasks run inside a `finish`; they do not run inside one call
-- of the file system. An
-- open file survives its removal. Bytes have reached the file when write_all returns. The content
-- of metadata is opaque. A header is text or absent. The clock, the process id and the environment
-- are arguments. The inspector sees files that do not change during its request, and the tail of a
-- request as it was sent, not decoded, as warp documents it. The registry of prometheus takes each
-- name once.
--
-- What is not modelled. Where the functions trace their lines, and the texts of errors; the encoding
-- of the inspector's JSON replies and its HTTP server, which are warp's; the server of pingora and its command line; the
-- eviction manager, which is pingora's; the exposition of the metrics by prometheus; new_ctx, as_any
-- and streaming_write_tag, which return constants.
pub mod Common
pub mod Utils
pub mod Delivery
pub mod Disk
pub mod Host
pub mod Inspector
pub mod Logging
pub mod Proxy
pub mod Startup
pub mod Tiered
