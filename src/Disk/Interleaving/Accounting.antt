-- ===== src/Disk/Interleaving/Accounting.antt =====
-- The size gauge and the count of evicted bytes, over any interleaving of calls.
use edge_cdn_store.Common.{
  ℕ, ◌+◌, ◌%◌, ◌≡◌, refl, Bool, List, [], ◌∷◌, ◌++◌, some, is_ok, length, concat, arith,
  length-append, if◌then◌else◌, Result-cases, inl, inr,
}
use edge_cdn_store.Disk.Files.{Bytes, FileSystem, IsLawful}
use edge_cdn_store.Disk.World.{World, CacheMetrics, CacheTypes, IsLawfulTypes, u64_mod}
use edge_cdn_store.Disk.Paths.{DiskCache}
use edge_cdn_store.Disk.Miss.{DiskMissHandler, Stamp, create_tmp, write_body, finish, drop_handler}
use edge_cdn_store.Disk.Miss.Finish.{finish_err}
use edge_cdn_store.Disk.Hit.{DiskHitHandler, read_body, finish_hit}
use edge_cdn_store.Disk.Store.{PurgeType, lookup, get_miss_handler, purge, update_meta}
use edge_cdn_store.Disk.Interleaving.{
  Open, System, Step, begin, begin_fails, write, write_fails, promote, abandon, look_up, read,
  serve_ends, remove, rewrite, Reach, start, later,
}
use edge_cdn_store.Disk.Interleaving.Publish.{finish_published}

-- What the metrics say of the bodies that were published between two states: their number is what
-- the insertions have grown by, and their length what the gauge and the evicted bytes have grown by
-- together, all as 64-bit numbers.
pub record Booked (bodies : List Bytes) (m m' : CacheMetrics) : Type 0 where
  pub balance :
      (m'.size_bytes + m'.evicted_bytes) % u64_mod
      ≡ (m.size_bytes + m.evicted_bytes + length (concat bodies)) % u64_mod
  pub counted : m'.inserts % u64_mod ≡ (m.inserts + length bodies) % u64_mod

unchanged :
    {m m' : CacheMetrics}
    → (m'.size_bytes ≡ m.size_bytes)
      × (m'.evicted_bytes ≡ m.evicted_bytes)
      × (m'.inserts ≡ m.inserts)
    → Booked [] m m'
unchanged e = record { balance = omega arith; counted = omega arith }

length-concat :
    (xs ys : List Bytes) → length (concat (xs ++ ys)) ≡ length (concat xs) + length (concat ys)
length-concat [] ys = omega arith
length-concat (x ∷ xs) ys =
    omega
      (arith, length-append x (concat (xs ++ ys)), length-append x (concat xs), length-concat xs ys)

in_turn :
    {xs ys : List Bytes} {m m' m'' : CacheMetrics}
    → Booked xs m m'
    → Booked ys m' m''
    → Booked (xs ++ ys) m m''
in_turn {xs} {ys} g h = record {
  balance = omega (arith, length-concat xs ys, g.balance, h.balance);
  counted = omega (arith, length-append xs ys, g.counted, h.counted);
}

module _ (F : FileSystem) (P : CacheTypes) (c : DiskCache) where
  get_miss_handler_books :
      (k : P.CacheKey) (m : P.CacheMeta) (t : Stamp) (w : World F)
      → Booked [] w.metrics (get_miss_handler F P c k m t w).1.metrics
  unfolding get_miss_handler create_tmp
  get_miss_handler_books k m t w = unchanged (ground arith)

  lookup_books : (k : P.CacheKey) (w : World F) → Booked [] w.metrics (lookup F P c k w).1.metrics
  unfolding lookup
  lookup_books k w = unchanged (ground arith)

  read_body_books :
      (h : DiskHitHandler F) (w : World F) → Booked [] w.metrics (read_body F h w).2.metrics
  unfolding read_body
  read_body_books h w = unchanged (ground arith)

  update_meta_books :
      (k : P.CacheKey) (m : P.CacheMeta) (w : World F)
      → Booked [] w.metrics (update_meta F P c k m w).1.metrics
  unfolding update_meta
  update_meta_books k m w = unchanged (ground arith)

  purge_books :
      (k : P.CompactCacheKey) (t : PurgeType) (w : World F)
      → Booked [] w.metrics (purge F P c k t w).1.metrics
  unfolding purge
  purge_books k t w = record { balance = ground arith; counted = ground arith }

  finish_hit_books :
      (h : DiskHitHandler F) (w : World F) → Booked [] w.metrics (finish_hit F h w).1.metrics
  unfolding finish_hit
  finish_hit_books h w = unchanged (refl, refl, refl)

  write_body_books :
      (b : Bytes) (is_eof : Bool) (h : DiskMissHandler) (w : World F)
      → Booked [] w.metrics (write_body F b is_eof h w).1.metrics
  unfolding write_body
  write_body_books b is_eof h w = unchanged (ground arith)

  dropped_books :
      (h : DiskMissHandler) (w : World F) {m : CacheMetrics} {xs : List Bytes}
      → Booked xs m w.metrics
      → Booked xs m (drop_handler F h w).metrics
  unfolding drop_handler
  dropped_books h w b = b

  -- The bodies that a step publishes: that of a `finish` which returns, and no other.
  abbrev pub publishes : {s s' : System F P} → Step F P c s s' → List Bytes
  publishes {s} (promote i o q) =
      if is_ok (finish F o.handler s.world).0 then o.written ∷ [] else []
  publishes (remove k t) = []
  publishes (rewrite k m) = []
  publishes (begin i k m t h free fresh e) = []
  publishes (begin_fails k m t x fresh e) = []
  publishes (write i o b is_eof h q e) = []
  publishes (write_fails i o b is_eof x q e) = []
  publishes (abandon i o q) = []
  publishes (look_up k) = []
  publishes (read h) = []
  publishes (serve_ends h) = []

  -- All of them in their order, and the state of the metrics at the start.
  unfoldable pub published : {s : System F P} → Reach F P c s → List Bytes
  published (start w) = []
  published (later r st) = published r ++ publishes st

  unfoldable pub initial : {s : System F P} → Reach F P c s → CacheMetrics
  initial (start w) = w.metrics
  initial (later r st) = initial r

module _ (F : FileSystem) (L : IsLawful F) (P : CacheTypes) (LP : IsLawfulTypes P)
    (c : DiskCache) where
  promote_books :
      {s : System F P} (i : ℕ) (o : Open P) (q : s.slots i ≡ some o)
      → Reach F P c s
      → Booked
          (if is_ok (finish F o.handler s.world).0 then o.written ∷ [] else [])
          s.world.metrics
          (finish F o.handler s.world).1.metrics
  promote_books {s} i o q r = elim (Result-cases (finish F o.handler s.world).0) [
    | inl (made, e) ↦
        let (a, b, parts, what, stored, now) = finish_published F L P LP c i o made r q e in
        rw (e, now)
          (record { balance = omega (arith, length-append o.written []); counted = omega arith })
    | inr (x, e) ↦ rw (e, (finish_err F o.handler s.world x e).1) (unchanged (refl, refl, refl))
  ]

  Step-Booked :
      {s s' : System F P} (st : Step F P c s s')
      → Reach F P c s
      → Booked (publishes F P c st) s.world.metrics s'.world.metrics
  Step-Booked {s} (promote i o q) r = promote_books i o q r
  Step-Booked {s} (remove k t) r = purge_books F P c (P.to_compact k) t s.world
  Step-Booked {s} (rewrite k m) r = update_meta_books F P c k m s.world
  Step-Booked {s} (begin i k m t h free fresh e) r = get_miss_handler_books F P c k m t s.world
  Step-Booked {s} (begin_fails k m t x fresh e) r = get_miss_handler_books F P c k m t s.world
  Step-Booked {s} (write i o b is_eof h q e) r = write_body_books F P c b is_eof o.handler s.world
  Step-Booked {s} (write_fails i o b is_eof x q e) r =
      dropped_books F P c o.handler _ (write_body_books F P c b is_eof o.handler s.world)
  Step-Booked {s} (abandon i o q) r =
      dropped_books F P c o.handler s.world (unchanged (refl, refl, refl))
  Step-Booked {s} (look_up k) r = lookup_books F P c k s.world
  Step-Booked {s} (read h) r = read_body_books F P c h s.world
  Step-Booked {s} (serve_ends h) r = finish_hit_books F P c h s.world

  -- In every state that any interleaving of calls reaches, the gauge and the count of evicted bytes
  -- have together grown by the length of all bodies that a `finish` which returned has published,
  -- and the count of insertions by their number, as 64-bit numbers; nothing else moves them.
  pub Reach-Booked :
      {s : System F P} (r : Reach F P c s)
      → Booked (published F P c r) (initial F P c r) s.world.metrics
  unfolding published initial
  Reach-Booked (start w) = unchanged (refl, refl, refl)
  Reach-Booked (later r st) = in_turn (Reach-Booked r) (Step-Booked st r)
