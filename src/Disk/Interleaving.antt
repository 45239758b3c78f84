-- ===== src/Disk/Interleaving.antt =====
-- Many requests at once: the operations of the disk cache (src/disk_cache), interleaved. Each call
-- of a handler or of the storage is one step; several responses are being stored at the same time.
-- What other tasks may do while a `finish` awaits is in Disk/Overlap.
pub mod Sound
pub mod Steps
pub mod Publish
pub mod Accounting
use edge_cdn_store.Common.{
  ℕ, Bool, ◌≡◌, ◌≢◌, List, [], ◌++◌, Option, none, some, Result, ok, err, ◌==◌, if◌then◌else◌,
}
use edge_cdn_store.Common.State.{Failure}
use edge_cdn_store.Disk.Files.{Bytes, FilePath, join, FileSystem}
use edge_cdn_store.Disk.World.{World, CacheTypes}
use edge_cdn_store.Disk.Paths.{DiskCache, entry_dir}
use edge_cdn_store.Disk.Miss.{DiskMissHandler, Stamp, tmp_name, write_body, finish, drop_handler}
use edge_cdn_store.Disk.Hit.{DiskHitHandler, read_body, finish_hit}
use edge_cdn_store.Disk.Store.{PurgeType, lookup, get_miss_handler, purge, update_meta}

-- A response that is being stored: what the proxy holds, and what it has written so far.
pub record Open (P : CacheTypes) : Type 0 where
  pub key : P.CacheKey
  pub meta : P.CacheMeta
  pub stamp : Stamp
  pub handler : DiskMissHandler
  pub written : Bytes

module _ (F : FileSystem) (P : CacheTypes) where
  abbrev pub Slots : Type 0
  Slots = ℕ → Option (Open P)

  pub record System : Type 0 where
    pub world : World F
    pub slots : Slots

  abbrev pub set : Slots → ℕ → Option (Open P) → Slots
  set slots i v j = if j == i then v else slots j

  abbrev pub set_world : System → World F → System
  set_world s w = record s { world = w }

module _ (F : FileSystem) (P : CacheTypes) (c : DiskCache) where
  abbrev pub tmp_path_of : P.CacheKey → Stamp → FilePath
  tmp_path_of k t = join (entry_dir c (P.combined k)) (tmp_name (P.combined k) t)

  -- The clock has moved since any response that is still open was begun for the same entry.
  abbrev pub IsFresh : Slots F P → P.CacheKey → Stamp → Type 0
  IsFresh slots k t =
      (j : ℕ) (o : Open P) → slots j ≡ some o → P.combined o.key ≡ P.combined k → o.stamp ≢ t

  -- One call. A handler is dropped when one of its calls has failed.
  pub data Step (s : System F P) : System F P → Type 0 where
    begin :
        (i : ℕ) (k : P.CacheKey) (m : P.CacheMeta) (t : Stamp) (h : DiskMissHandler)
        → s.slots i ≡ none
        → IsFresh s.slots k t
        → (get_miss_handler F P c k m t s.world).0 ≡ ok h
        → Step s (record {
          world = (get_miss_handler F P c k m t s.world).1;
          slots =
              set F P s.slots i
                (some (record { key = k; meta = m; stamp = t; handler = h; written = [] }));
        })
    begin_fails :
        (k : P.CacheKey) (m : P.CacheMeta) (t : Stamp) (x : Failure)
        → IsFresh s.slots k t
        → (get_miss_handler F P c k m t s.world).0 ≡ err x
        → Step s (set_world F P s (get_miss_handler F P c k m t s.world).1)
    write :
        (i : ℕ) (o : Open P) (b : Bytes) (is_eof : Bool) (h : DiskMissHandler)
        → s.slots i ≡ some o
        → (write_body F b is_eof o.handler s.world).0 ≡ ok h
        → Step s (record {
          world = (write_body F b is_eof o.handler s.world).1;
          slots = set F P s.slots i (some (record o { handler = h; written = o.written ++ b }));
        })
    write_fails :
        (i : ℕ) (o : Open P) (b : Bytes) (is_eof : Bool) (x : Failure)
        → s.slots i ≡ some o
        → (write_body F b is_eof o.handler s.world).0 ≡ err x
        → Step s (record {
          world = drop_handler F o.handler (write_body F b is_eof o.handler s.world).1;
          slots = set F P s.slots i none;
        })
    promote :
        (i : ℕ) (o : Open P)
        → s.slots i ≡ some o
        → Step s (record { world = (finish F o.handler s.world).1; slots = set F P s.slots i none })
    abandon :
        (i : ℕ) (o : Open P)
        → s.slots i ≡ some o
        → Step s
            (record { world = drop_handler F o.handler s.world; slots = set F P s.slots i none })
    look_up : (k : P.CacheKey) → Step s (set_world F P s (lookup F P c k s.world).1)
    read : (h : DiskHitHandler F) → Step s (set_world F P s (read_body F h s.world).2)
    serve_ends : (h : DiskHitHandler F) → Step s (set_world F P s (finish_hit F h s.world).1)
    remove :
        (k : P.CacheKey) (t : PurgeType)
        → Step s (set_world F P s (purge F P c (P.to_compact k) t s.world).1)
    rewrite :
        (k : P.CacheKey) (m : P.CacheMeta)
        → Step s (set_world F P s (update_meta F P c k m s.world).1)

  abbrev pub no_slots : Slots F P
  no_slots i = none

  -- The states that can be reached from a start with any files and no response open.
  pub data Reach : System F P → Type 0 where
    start : (w : World F) → Reach (record { world = w; slots = no_slots })
    later : {s s' : System F P} → Reach s → Step s s' → Reach s'
