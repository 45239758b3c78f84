-- ===== src/Disk/Interleaving/Publish.antt =====
-- What requests see of one another, where each call is one step: a response is published whole, and
-- an entry stays as it is until a request for its own key changes it.
use edge_cdn_store.Common.{ℕ, ◌≡◌, ◌≢◌, refl, sym, ap, ◌∙◌, Option, none, some, ok, length}
use edge_cdn_store.Disk.Files.{Bytes, FilePath, FileSystem, IsLawful}
use edge_cdn_store.Disk.World.{World, CacheTypes, IsLawfulTypes, inc, inc_by}
use edge_cdn_store.Disk.Paths.{DiskCache, entry_dir}
use edge_cdn_store.Disk.Paths.Separate.{
  InEntry, in_body, in_meta, in_hdr, InEntry-IsElsewhere, InEntry-ne_tmp,
}
use edge_cdn_store.Disk.Miss.{DiskMissHandler, MissFinishType, created, write_body, finish}
use edge_cdn_store.Disk.Miss.Write.{write_body_frame}
use edge_cdn_store.Disk.Hit.{finish_hit}
use edge_cdn_store.Disk.Store.Handler.{get_miss_handler_frame}
use edge_cdn_store.Disk.Store.Insert.{Stored, finish_handler_ok}
use edge_cdn_store.Disk.Store.Lookup.{lookup_frame}
use edge_cdn_store.Disk.Store.Purge.{purge_frame_at}
use edge_cdn_store.Disk.Store.Update.{update_meta_frame}
use edge_cdn_store.Disk.Interleaving.{
  Open, System, Step, begin, begin_fails, write, write_fails, promote, abandon, look_up, read,
  serve_ends, remove, rewrite, Reach,
}
use edge_cdn_store.Disk.Interleaving.Sound.{
  IsOpen, IsSound, Same, finish-Same, drop_handler-Same, read_body-Same,
}
use edge_cdn_store.Disk.Interleaving.Steps.{Reach-IsSound}

module _ (F : FileSystem) (P : CacheTypes) (c : DiskCache) where
  -- The hash of the entry that a step may change.
  abbrev pub changes : {s s' : System F P} → Step F P c s s' → Option Bytes
  changes (promote i o q) = some (P.combined o.key)
  changes (remove k t) = some (P.combined k)
  changes (rewrite k m) = some (P.combined k)
  changes (begin i k m t h free fresh e) = none
  changes (begin_fails k m t x fresh e) = none
  changes (write i o b is_eof h q e) = none
  changes (write_fails i o b is_eof x q e) = none
  changes (abandon i o q) = none
  changes (look_up k) = none
  changes (read h) = none
  changes (serve_ends h) = none

module _ (F : FileSystem) (L : IsLawful F) (P : CacheTypes) (LP : IsLawfulTypes P)
    (c : DiskCache) where
  -- Where each call is one step, which does not let other tasks run inside `finish`, a `finish` that
  -- returns publishes what its own response has written, with its own metadata, and counts it.
  pub finish_published :
      {s : System F P} (i : ℕ) (o : Open P) (r : MissFinishType)
      → Reach F P c s
      → s.slots i ≡ some o
      → (finish F o.handler s.world).0 ≡ ok r
      → let w' = (finish F o.handler s.world).1 in
        (a : Bytes) × (b : Bytes) × (P.serialize o.meta ≡ ok (a, b))
        × (r ≡ created (length o.written))
        × Stored F P c (P.combined o.key) o.written a b w'
        × (w'.metrics ≡ record (s.world.metrics) {
          inserts = inc s.world.metrics.inserts;
          size_bytes = inc_by (length o.written) s.world.metrics.size_bytes;
        })
  finish_published {s} i o r reach q e =
      let open_now = (Reach-IsSound F L P LP c reach).opened i o q in
      let (what, stored, counted) =
        finish_handler_ok F L P c (P.combined o.key) o.stamp open_now.internal open_now.header
          o.written o.handler s.world r open_now.shape open_now.pending e in
      (open_now.internal, open_now.header, open_now.serialized, what, stored, counted)

  InEntry-ne_open :
      (o : Open P) (w : World F) (p : FilePath) {g : Bytes}
      → IsOpen F P c o w
      → InEntry c g p
      → p ≢ o.handler.tmp_path
  InEntry-ne_open o w p i in_g e =
      InEntry-ne_tmp in_g (entry_dir c (P.combined o.key)) (P.combined o.key) o.stamp
        (e ∙ ap (λ (h : DiskMissHandler). h.tmp_path) i.shape)

  -- A step leaves the files of an entry that it does not change.
  Step-Same :
      {s s' : System F P} (st : Step F P c s s') (g : Bytes) (p : FilePath)
      → IsSound F P c s
      → changes F P c st ≢ some g
      → InEntry c g p
      → Same F P c s.world s'.world p
  Step-Same {s} (begin i k m t h free fresh e) g p sound n in_g =
      get_miss_handler_frame F L P c k m t s.world p (InEntry-ne_tmp in_g _ _ t)
  Step-Same {s} (begin_fails k m t x fresh e) g p sound n in_g =
      get_miss_handler_frame F L P c k m t s.world p (InEntry-ne_tmp in_g _ _ t)
  Step-Same {s} (write i o b is_eof h q e) g p sound n in_g =
      write_body_frame F L b is_eof o.handler s.world p
        (InEntry-ne_open o s.world p (sound.opened i o q) in_g)
  Step-Same {s} (write_fails i o b is_eof x q e) g p sound n in_g =
      let other = InEntry-ne_open o s.world p (sound.opened i o q) in_g in
      drop_handler-Same F L P LP c o.handler (write_body F b is_eof o.handler s.world).1 p other
      ∙ write_body_frame F L b is_eof o.handler s.world p other
  Step-Same {s} (promote i o q) g p sound n in_g =
      finish-Same F L P LP c o s.world p (sound.opened i o q)
        (InEntry-ne_open o s.world p (sound.opened i o q) in_g)
        (InEntry-IsElsewhere in_g (λ r. n (ap some (sym r))))
  Step-Same {s} (abandon i o q) g p sound n in_g =
      drop_handler-Same F L P LP c o.handler s.world p
        (InEntry-ne_open o s.world p (sound.opened i o q) in_g)
  Step-Same {s} (look_up k) g p sound n in_g = lookup_frame F L P LP c k s.world p
  Step-Same {s} (read h) g p sound n in_g = read_body-Same F L P LP c h s.world p
  Step-Same {s} (serve_ends h) g p sound n in_g = unfold finish_hit in refl
  Step-Same {s} (remove k t) g p sound n in_g =
      purge_frame_at F L P LP c k t s.world p (InEntry-IsElsewhere in_g (λ r. n (ap some (sym r))))
  Step-Same {s} (rewrite k m) g p sound n in_g =
      update_meta_frame F L P LP c k m s.world p
        (InEntry-IsElsewhere in_g (λ r. n (ap some (sym r))))

  -- In every reachable state an entry that is stored stays stored, with the same body and the same
  -- metadata, under any step but one that finishes, purges or updates an entry with its hash.
  pub Step-Stored :
      {s s' : System F P} (st : Step F P c s s') (g body a b : Bytes)
      → Reach F P c s
      → changes F P c st ≢ some g
      → Stored F P c g body a b s.world
      → Stored F P c g body a b s'.world
  Step-Stored st g body a b reach n stored =
      let sound = Reach-IsSound F L P LP c reach in
      record {
        body_stored = Step-Same st g _ sound n in_body ∙ stored.body_stored;
        meta_stored = Step-Same st g _ sound n in_meta ∙ stored.meta_stored;
        hdr_stored = Step-Same st g _ sound n in_hdr ∙ stored.hdr_stored;
      }
