-- ===== src/Disk/Tests/Interleaving.antt =====
-- One response that is begun, written and finished while another one is begun.
use edge_cdn_store.Common.{
  ℕ, ◌≡◌, ◌≢◌, refl, ap, [], ◌∷◌, Option, none, some, ok, true, length, arith,
}
use edge_cdn_store.Common.Text.{codes, decimal}
use edge_cdn_store.Disk.Files.{Bytes}
use edge_cdn_store.Disk.Files.Memory.{memory, memory-IsLawful, path_eq}
use edge_cdn_store.Disk.Paths.{path_from_hash, path_from_key}
use edge_cdn_store.Disk.Miss.{
  DiskMissHandler, Stamp, created, tmp_name, create_tmp, write_body, finish, finish_steps, transfer,
  commit,
}
use edge_cdn_store.Disk.Store.{get_miss_handler, purge, eviction}
use edge_cdn_store.Disk.Store.Handler.{handler_for}
use edge_cdn_store.Disk.Store.Insert.{Stored}
use edge_cdn_store.Disk.Interleaving.{
  Open, System, set, no_slots, begin, write, promote, remove, Reach, start, later,
}
use edge_cdn_store.Disk.Interleaving.Accounting.{Booked, published, initial, Reach-Booked}
use edge_cdn_store.Disk.Interleaving.Publish.{Step-Stored}
use edge_cdn_store.Disk.Samples.{types, types-IsLawful, cache, stamp, empty, page}
use edge_cdn_store.Disk.Tests.{after, after-Stored}

abbrev handler : Bytes → Stamp → ℕ → DiskMissHandler
handler hash t n = handler_for cache hash t (codes "m") (codes "h") n

abbrev clock_moved : Stamp
clock_moved = record { pid = 42; nanos = 1701 }

abbrev begun : Open types
begun = record {
  key = [];
  meta = page;
  stamp = stamp;
  handler = handler (codes "abcd") stamp 0;
  written = [];
}

abbrev first_system : System memory types
first_system = record {
  world = (get_miss_handler memory types cache [] page stamp empty).1;
  slots = set memory types (no_slots memory types cache) 0 (some begun);
}

first_now :
    (get_miss_handler memory types cache [] page stamp empty).0
    ≡ ok (handler (codes "abcd") stamp 0)
unfolding get_miss_handler path_from_key path_from_hash create_tmp path_eq tmp_name decimal
first_now = refl

first_reached : Reach memory types cache first_system
first_reached =
    later (start empty)
      (begin 0 [] page stamp (handler (codes "abcd") stamp 0) refl (λ j o e. cc) first_now)

-- A second response for the same key.
abbrev second_system : System memory types
second_system = record {
  world = (get_miss_handler memory types cache [] page clock_moved first_system.world).1;
  slots =
      set memory types first_system.slots 1 (
        some
          (record begun { stamp = clock_moved; handler = handler (codes "abcd") clock_moved 0 }));
}

second_now :
    (get_miss_handler memory types cache [] page clock_moved first_system.world).0
    ≡ ok (handler (codes "abcd") clock_moved 0)
unfolding get_miss_handler path_from_key path_from_hash create_tmp path_eq tmp_name decimal
second_now = refl

stamp_of : (j : ℕ) (o : Open types) → first_system.slots j ≡ some o → o.stamp.nanos ≡ 1700
stamp_of j o e = ground arith

second_reached : Reach memory types cache second_system
second_reached = later first_reached (
    begin 1 [] page clock_moved (handler (codes "abcd") clock_moved 0) refl
      (λ j o e same q. absurd (omega (arith, stamp_of j o e, ap (λ (t : Stamp). t.nanos) q)))
      second_now)

abbrev written_system : System memory types
written_system = record {
  world =
      (write_body memory (codes "hello") true (handler (codes "abcd") stamp 0)
        second_system.world).1;
  slots =
      set memory types second_system.slots 0
        (some (record begun { handler = handler (codes "abcd") stamp 5; written = codes "hello" }));
}

written_now :
    (write_body memory (codes "hello") true (handler (codes "abcd") stamp 0) second_system.world).0
    ≡ ok (handler (codes "abcd") stamp 5)
unfolding get_miss_handler path_from_key path_from_hash create_tmp write_body path_eq tmp_name
    decimal
written_now = refl

written_reached : Reach memory types cache written_system
written_reached =
    later second_reached
      (write 0 begun (codes "hello") true (handler (codes "abcd") stamp 5) refl written_now)

finished_now :
    (finish memory (handler (codes "abcd") stamp 5) written_system.world).0 ≡ ok (created 5)
unfolding get_miss_handler path_from_key path_from_hash create_tmp write_body finish finish_steps
    transfer commit path_eq tmp_name decimal
finished_now = refl

abbrev stored_system : System memory types
stored_system = record { world = after; slots = no_slots memory types cache }

other_entry : some (codes "abcdx") ≢ some (codes "abcd")
other_entry e = absurd (omega (arith, ap size e))
  where
    size : Option Bytes → ℕ
    size none = 0
    size (some s) = length s

Step-Stored_example :
    Stored memory types cache
      (codes "abcd")
      (codes "hello world")
      (codes "m")
      (codes "h")
      (purge memory types cache (codes "x") eviction after).1
Step-Stored_example =
    Step-Stored memory memory-IsLawful types types-IsLawful cache {s = stored_system}
      (remove (codes "x") eviction) (codes "abcd") (codes "hello world") (codes "m") (codes "h")
      (start after) other_entry after-Stored

abbrev finished_reached : Reach memory types cache (record {
  world = (finish memory (handler (codes "abcd") stamp 5) written_system.world).1;
  slots = set memory types written_system.slots 0 none;
})
finished_reached = later written_reached (
    promote 0 (record begun { handler = handler (codes "abcd") stamp 5; written = codes "hello" })
      refl)

published_now : published memory types cache finished_reached ≡ codes "hello" ∷ []
unfolding published get_miss_handler path_from_key path_from_hash create_tmp write_body finish
    finish_steps transfer commit path_eq tmp_name decimal written_reached second_reached
    first_reached
published_now = refl

Reach-Booked_example :
    Booked
      (published memory types cache finished_reached)
      (initial memory types cache finished_reached)
      (finish memory (handler (codes "abcd") stamp 5) written_system.world).1.metrics
Reach-Booked_example =
    Reach-Booked memory memory-IsLawful types types-IsLawful cache finished_reached
