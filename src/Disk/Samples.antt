-- ===== src/Disk/Samples.antt =====
-- Sample data: keys that are the end of their hash, metadata that is its own serialization, and a
-- cache on the file system in memory.
use edge_cdn_store.Common.{
  ◌++◌, List, [], ◌∷◌, refl, none, ok, err, Bool, false, ◌||◌, inr, if◌then◌else◌, arith,
}
use edge_cdn_store.Common.Text.{Text, codes, text_eq}
use edge_cdn_store.Disk.Files.{Bytes}
use edge_cdn_store.Disk.Files.Memory.{Fault, memory}
use edge_cdn_store.Disk.Registry.{Registry, IsLawfulRegistry}
use edge_cdn_store.Disk.World.{CacheTypes, IsLawfulTypes, World, CacheMetrics}
use edge_cdn_store.Disk.Hit.{DiskHitHandler}
use edge_cdn_store.Disk.Hit.Read.{InSync}
use edge_cdn_store.Disk.Paths.{DiskCache}
use edge_cdn_store.Disk.Miss.{Stamp}

abbrev pub types : CacheTypes
types = record {
  CacheKey = Bytes;
  CompactCacheKey = Bytes;
  CacheMeta = Bytes × Bytes;
  combined = λ k. codes "abcd" ++ k;
  compact_combined = λ k. codes "abcd" ++ k;
  to_compact = λ k. k;
  serialize = λ m. ok m;
  deserialize = λ a b. ok (a, b);
}

pub types-IsLawful : IsLawfulTypes types
types-IsLawful = record {
  combined-to_compact = λ k. refl;
  combined_long = λ k. omega arith;
  deserialize-serialize = λ m a b e. ground arith;
}

abbrev pub cache : DiskCache
cache = record { root = codes "cache" ∷ codes "tmp" ∷ []; start_time = 0; uptime = 0 }

abbrev pub stamp : Stamp
stamp = record { pid = 42; nanos = 1700 }

abbrev pub zeros : CacheMetrics
zeros = record {
  lookup_hits = 0;
  served_hits = 0;
  misses = 0;
  inserts = 0;
  purge_attempts = 0;
  evictions = 0;
  evicted_bytes = 0;
  size_bytes = 100;
}

-- An empty disk with a script of faults.
abbrev pub empty_with : List Fault → World memory
empty_with faults = record {
  fs = record {
    named = λ p. none;
    next = 0;
    opened = λ h. [];
    positions = λ h. 0;
    script = faults;
  };
  metrics = zeros;
}

abbrev pub empty : World memory
empty = empty_with []

abbrev pub page : Bytes × Bytes
page = (codes "m", codes "h")

abbrev pub pieces : List Bytes
pieces = codes "hello " ∷ codes "world" ∷ []

-- A file of eleven bytes that is open for serving.
abbrev pub reading : World memory
reading = record {
  fs = record {
    named = λ p. none;
    next = 1;
    opened = λ h. codes "hello world";
    positions = λ h. 0;
    script = [];
  };
  metrics = zeros;
}

abbrev pub hit : DiskHitHandler memory
hit = record {
  file = 0;
  total_len = 11;
  range_start = 0;
  range_end = 11;
  pos = 0;
  pending_seek = false;
  chunk = 4;
}

pub hit-InSync : InSync memory hit reading
hit-InSync = record {
  measured = refl;
  within = omega arith;
  ordered = omega arith;
  placed = inr refl;
  chunked = omega arith;
}

-- A registry that is the list of its names.
abbrev pub is_member : Text → List Text → Bool
is_member name [] = false
is_member name (n ∷ names) = text_eq n name || is_member name names

abbrev pub names : Registry
names = record {
  State = List Text;
  register = λ name help s. if is_member name s then (err tt, s) else (ok tt, name ∷ s);
  is_taken = λ s name. is_member name s;
}

pub names-IsLawful : IsLawfulRegistry names
names-IsLawful = record {
  register_free = λ name help s e. ground arith;
  register_taken = λ name help s e. ground arith;
  is_taken-register = λ name help s other e. ground arith;
}
