-- ===== src/Disk/Interleaving/Steps.antt =====
-- Every step keeps the open responses sound.
use edge_cdn_store.Common.{◌≡◌, refl, sym, ap, ◌∙◌, [], ◌++◌, ok}
use edge_cdn_store.Disk.Files.{Bytes, FileSystem, IsLawful}
use edge_cdn_store.Disk.World.{World, CacheTypes, IsLawfulTypes}
use edge_cdn_store.Disk.Paths.{DiskCache}
use edge_cdn_store.Disk.Miss.{DiskMissHandler, Stamp, write_body}
use edge_cdn_store.Disk.Miss.Write.{write_body_ok, write_body_rest, write_body_frame}
use edge_cdn_store.Disk.Hit.{finish_hit}
use edge_cdn_store.Disk.Store.{get_miss_handler}
use edge_cdn_store.Disk.Store.Handler.{handler_for, get_miss_handler_ok, get_miss_handler_frame}
use edge_cdn_store.Disk.Store.Lookup.{lookup_frame}
use edge_cdn_store.Disk.Store.Purge.{purge_frame_at}
use edge_cdn_store.Disk.Store.Update.{update_meta_frame}
use edge_cdn_store.Disk.Interleaving.{
  Open, System, tmp_path_of, Step, begin, begin_fails, write, write_fails, promote, abandon,
  look_up, read, serve_ends, remove, rewrite, Reach, start, later, no_slots,
}
use edge_cdn_store.Disk.Interleaving.Sound.{
  IsOpen, IsSound, fresh_path, Same-IsSound, put-IsSound, close-IsSound, IsOpen-IsElsewhere,
  finish-Same, drop_handler-Same, read_body-Same,
}

module _ (F : FileSystem) (L : IsLawful F) (P : CacheTypes) (LP : IsLawfulTypes P)
    (c : DiskCache) where
  opened_now :
      (k : P.CacheKey) (m : P.CacheMeta) (t : Stamp) (h : DiskMissHandler) (w : World F)
      → (get_miss_handler F P c k m t w).0 ≡ ok h
      → IsOpen F P c
          (record { key = k; meta = m; stamp = t; handler = h; written = [] })
          (get_miss_handler F P c k m t w).1
        × (h.tmp_path ≡ tmp_path_of F P c k t)
  opened_now k m t h w e =
      let (a, b, parts, same, pending, counted) = get_miss_handler_ok F L P c k m t w h e in
      (
        record {
          internal = a;
          header = b;
          serialized = parts;
          shape =
              same
              ∙ ap (λ n. handler_for c (P.combined k) t a b n)
                  (sym (ap (λ (g : DiskMissHandler). g.tmp_bytes_written) same));
          pending = pending;
        },
        ap (λ (g : DiskMissHandler). g.tmp_path) same,
      )

  written_now :
      (o : Open P) (b : Bytes) (is_eof : _) (h : DiskMissHandler) (w : World F)
      → IsOpen F P c o w
      → (write_body F b is_eof o.handler w).0 ≡ ok h
      → IsOpen F P c
          (record o { handler = h; written = o.written ++ b })
          (write_body F b is_eof o.handler w).1
        × (h.tmp_path ≡ o.handler.tmp_path)
  written_now o b is_eof h w i e =
      let rest = write_body_rest F L b is_eof o.handler h w e in
      (
        record {
          internal = i.internal;
          header = i.header;
          serialized = i.serialized;
          shape =
              rest
              ∙ ap (λ (g : DiskMissHandler). record g { tmp_bytes_written = h.tmp_bytes_written })
                  i.shape;
          pending = write_body_ok F L b is_eof o.handler h o.written w i.pending e;
        },
        ap (λ (g : DiskMissHandler). g.tmp_path) rest,
      )

  -- Each step of any request keeps every open response sound.
  Step-IsSound : {s s' : System F P} → Step F P c s s' → IsSound F P c s → IsSound F P c s'
  Step-IsSound {s} (begin i k m t h free fresh e) sound =
      let (now, at) = opened_now k m t h s.world e in
      put-IsSound F P c s _ i _ sound
        (λ j o q n.
          get_miss_handler_frame F L P c k m t s.world o.handler.tmp_path
            (fresh_path F P c s k t sound fresh j o q))
        now (λ j o q n r. fresh_path F P c s k t sound fresh j o q (r ∙ at))
  Step-IsSound {s} (begin_fails k m t x fresh e) sound = Same-IsSound F P c s _ sound (λ j o q.
      get_miss_handler_frame F L P c k m t s.world o.handler.tmp_path
        (fresh_path F P c s k t sound fresh j o q))
  Step-IsSound {s} (write i o b is_eof h q e) sound =
      let (now, at) = written_now o b is_eof h s.world (sound.opened i o q) e in
      put-IsSound F P c s _ i _ sound
        (λ j o' q' n.
          write_body_frame F L b is_eof o.handler s.world o'.handler.tmp_path
            (sound.apart j i o' o q' q n))
        now (λ j o' q' n r. sound.apart j i o' o q' q n (r ∙ at))
  Step-IsSound {s} (write_fails i o b is_eof x q e) sound =
      close-IsSound F P c s _ i sound (λ j o' q' n.
        let other = sound.apart j i o' o q' q n in
        drop_handler-Same F L P LP c o.handler (write_body F b is_eof o.handler s.world).1
          o'.handler.tmp_path other
        ∙ write_body_frame F L b is_eof o.handler s.world o'.handler.tmp_path other)
  Step-IsSound {s} (promote i o q) sound = close-IsSound F P c s _ i sound (λ j o' q' n.
      finish-Same F L P LP c o s.world o'.handler.tmp_path (sound.opened i o q)
        (sound.apart j i o' o q' q n)
        (IsOpen-IsElsewhere F P c o' s.world (P.combined o.key) (sound.opened j o' q')))
  Step-IsSound {s} (abandon i o q) sound = close-IsSound F P c s _ i sound (λ j o' q' n.
      drop_handler-Same F L P LP c o.handler s.world o'.handler.tmp_path
        (sound.apart j i o' o q' q n))
  Step-IsSound {s} (look_up k) sound =
      Same-IsSound F P c s _ sound (λ j o q. lookup_frame F L P LP c k s.world o.handler.tmp_path)
  Step-IsSound {s} (read h) sound =
      Same-IsSound F P c s _ sound (λ j o q. read_body-Same F L P LP c h s.world o.handler.tmp_path)
  Step-IsSound {s} (serve_ends h) sound =
      Same-IsSound F P c s _ sound (λ j o q. unfold finish_hit in refl)
  Step-IsSound {s} (remove k t) sound = Same-IsSound F P c s _ sound (λ j o q.
      purge_frame_at F L P LP c k t s.world o.handler.tmp_path
        (IsOpen-IsElsewhere F P c o s.world (P.combined k) (sound.opened j o q)))
  Step-IsSound {s} (rewrite k m) sound = Same-IsSound F P c s _ sound (λ j o q.
      update_meta_frame F L P LP c k m s.world o.handler.tmp_path
        (IsOpen-IsElsewhere F P c o s.world (P.combined k) (sound.opened j o q)))

  start-IsSound : (w : World F) → IsSound F P c (record { world = w; slots = no_slots F P c })
  start-IsSound w = record { opened = λ i o e. cc; apart = λ i j o o' e. cc }

  pub Reach-IsSound : {s : System F P} → Reach F P c s → IsSound F P c s
  Reach-IsSound (start w) = start-IsSound w
  Reach-IsSound (later r st) = Step-IsSound st (Reach-IsSound r)
