-- ===== src/Disk/Tests/Torn.antt =====
-- A response that replaces the stored one, with a failure at its first metadata file.
use edge_cdn_store.Common.{◌≡◌, refl, [], ◌∷◌, some, err, true, is_ok, if◌then◌else◌}
use edge_cdn_store.Common.Text.{codes, decimal}
use edge_cdn_store.Common.State.{error, internal_error}
use edge_cdn_store.Disk.Files.{other}
use edge_cdn_store.Disk.Files.Memory.{fine, fails, memory, memory-IsLawful, path_eq}
use edge_cdn_store.Disk.World.{World}
use edge_cdn_store.Disk.Paths.{path_from_hash, path_from_key}
use edge_cdn_store.Disk.Miss.{
  DiskMissHandler, tmp_name, create_tmp, write_body, finish, finish_steps, transfer, commit,
  drop_handler,
}
use edge_cdn_store.Disk.Miss.Write.{Pending, write_pieces}
use edge_cdn_store.Disk.Store.{get_miss_handler}
use edge_cdn_store.Disk.Store.Handler.{handler_for}
use edge_cdn_store.Disk.Store.Insert.{Stored, store_response}
use edge_cdn_store.Disk.Store.Torn.{body_moved, meta_written, Stored-finish_torn}
use edge_cdn_store.Disk.Samples.{types, cache, stamp}
use edge_cdn_store.Disk.Tests.{after}

abbrev handler : DiskMissHandler
handler = handler_for cache (codes "abcd") stamp (codes "m2") (codes "h2") 3

abbrev failing : World memory
failing = record after {
  fs = record (after.fs) {
    named = λ p. if path_eq p handler.tmp_path then some (codes "new") else after.fs.named p;
    script = fine ∷ fine ∷ fails ∷ [];
  };
}

failing-Stored :
    Stored memory types cache (codes "abcd") (codes "hello world") (codes "m") (codes "h") failing
unfolding store_response get_miss_handler path_from_key path_from_hash create_tmp write_pieces
    write_body finish finish_steps transfer commit path_eq tmp_name decimal drop_handler
failing-Stored = record { body_stored = refl; meta_stored = refl; hdr_stored = refl }

failing-Pending : Pending memory handler (codes "new") failing
unfolding path_eq tmp_name decimal
failing-Pending = record { stored = refl; counted = refl }

moved_now : is_ok (body_moved memory handler failing).0 ≡ true
unfolding path_eq tmp_name decimal
moved_now = refl

refused_now : (meta_written memory handler failing).0 ≡ err other
unfolding path_eq tmp_name decimal
refused_now = refl

kept_now :
    memory.file (meta_written memory handler failing).1 handler.meta_path
    ≡ memory.file (body_moved memory handler failing).1 handler.meta_path
unfolding path_eq tmp_name decimal
kept_now = refl

Stored-finish_torn_example :
    ((finish memory handler failing).0 ≡ err (error internal_error))
    × Stored memory types cache
        (codes "abcd")
        (codes "new")
        (codes "m")
        (codes "h")
        (finish memory handler failing).1
Stored-finish_torn_example =
    Stored-finish_torn memory memory-IsLawful types cache handler (codes "abcd") stamp (codes "m")
      (codes "h") (codes "m2") (codes "h2") (codes "hello world") (codes "new") failing other refl
      failing-Stored failing-Pending moved_now refused_now kept_now
