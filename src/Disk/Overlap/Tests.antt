-- ===== src/Disk/Overlap/Tests.antt =====
-- Two responses in memory that are finished at one time.
use edge_cdn_store.Common.{◌≡◌, refl, ◌≢◌, [], some, ok, length, arith, ap, if◌then◌else◌}
use edge_cdn_store.Common.Text.{codes, decimal}
use edge_cdn_store.Disk.Files.Memory.{memory, memory-IsLawful, path_eq}
use edge_cdn_store.Disk.World.{World}
use edge_cdn_store.Disk.Paths.{path_from_hash, path_from_key}
use edge_cdn_store.Disk.Paths.Separate.{file_name}
use edge_cdn_store.Disk.Miss.{
  DiskMissHandler, Stamp, created, tmp_name, finish, finish_steps, transfer, commit, drop_handler,
}
use edge_cdn_store.Disk.Miss.Write.{Pending}
use edge_cdn_store.Disk.Store.{lookup}
use edge_cdn_store.Disk.Store.Handler.{handler_for, handler_for-AreSeparate}
use edge_cdn_store.Disk.Store.Lookup.{lookup_frame}
use edge_cdn_store.Disk.Samples.{types, types-IsLawful, cache, stamp, empty}
use edge_cdn_store.Disk.Overlap.{
  Others, meanwhile, transfer_among, promote_among, commit_among, finish_among,
}
use edge_cdn_store.Disk.Overlap.Published.{finish_among_ok}
use edge_cdn_store.Disk.Overlap.Mixed.{AreRivals, rival, finish_among_mixed}

abbrev later : Stamp
later = record { pid = 42; nanos = 17000 }

abbrev one : DiskMissHandler
one = handler_for cache (codes "abcd") stamp (codes "m1") (codes "h1") 5

abbrev two : DiskMissHandler
two = handler_for cache (codes "abcd") later (codes "m2") (codes "h2") 6

-- Both temporary files are written.
abbrev both : World memory
both = record empty {
  fs = record (empty.fs) {
    named = λ p.
        if path_eq p one.tmp_path
        then some (codes "first")
        else if path_eq p two.tmp_path
        then some (codes "second")
        else empty.fs.named p;
  };
}

one-Pending : Pending memory one (codes "first") both
unfolding path_eq tmp_name decimal
one-Pending = record { stored = refl; counted = refl }

two-Pending : Pending memory two (codes "second") both
unfolding path_eq tmp_name decimal
two-Pending = record { stored = refl; counted = refl }

-- The other task looks up the same entry.
abbrev looking : Others memory
looking i w = (lookup memory types cache [] w).1

returned : (finish_among memory looking one both).0 ≡ ok (created 5)
unfolding finish_among promote_among commit_among transfer_among meanwhile path_eq tmp_name decimal
    lookup path_from_key path_from_hash
returned = refl

finish_among_ok_example :
    let w = (finish_among memory looking one both).1 in
    (created 5 ≡ created 5)
    × (memory.file w.fs one.body_path ≡ some (codes "first"))
    × (memory.file w.fs one.meta_path ≡ some (codes "m1"))
    × (memory.file w.fs one.hdr_path ≡ some (codes "h1"))
finish_among_ok_example =
    finish_among_ok memory memory-IsLawful looking one
      (handler_for-AreSeparate cache (codes "abcd") stamp (codes "m1") (codes "h1") 5)
      (λ i w p own. lookup_frame memory memory-IsLawful types types-IsLawful cache [] w p)
      (codes "first") both (created 5) one-Pending returned

two_names : two.tmp_path ≢ one.tmp_path
unfolding tmp_name decimal
two_names e = absurd (omega (arith, ap (λ p. length (file_name p)) e))

rivals : AreRivals one two
rivals = record { one_body = refl; one_meta = refl; one_hdr = refl; two_tmps = two_names }

returned_one : (finish_among memory (rival memory two) one both).0 ≡ ok (created 5)
unfolding finish_among promote_among commit_among transfer_among meanwhile path_eq tmp_name decimal
    finish finish_steps transfer commit drop_handler
returned_one = refl

returned_two :
    (finish memory two (promote_among memory (rival memory two) one both).1).0 ≡ ok (created 6)
unfolding promote_among transfer_among meanwhile path_eq tmp_name decimal finish finish_steps
    transfer commit drop_handler
returned_two = refl

finish_among_mixed_example :
    let w = (finish_among memory (rival memory two) one both).1 in
    (memory.file w.fs one.body_path ≡ some (codes "second"))
    × (memory.file w.fs one.meta_path ≡ some (codes "m1"))
    × (memory.file w.fs one.hdr_path ≡ some (codes "h1"))
finish_among_mixed_example =
    finish_among_mixed memory memory-IsLawful one two
      (handler_for-AreSeparate cache (codes "abcd") stamp (codes "m1") (codes "h1") 5)
      (handler_for-AreSeparate cache (codes "abcd") later (codes "m2") (codes "h2") 6) rivals
      (codes "second") both (created 5) (created 6) two-Pending returned_one returned_two
