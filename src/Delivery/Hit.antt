-- ===== src/Delivery/Hit.antt =====
-- An answer that was kept is what later requests with its key are answered with.
use edge_cdn_store.Common.{
  ℕ, ◌+◌, ◌≤◌, ◌<◌, ◌≡◌, ◌≢◌, sym, ◌∙◌, ap, subst, ◌++◌, ◌∷◌, some, ok, true, false, length, concat,
}
use edge_cdn_store.Common.Text.{Text, decimal}
use edge_cdn_store.Disk.Files.{FileSystem, IsLawful, IsReliable}
use edge_cdn_store.Disk.World.{World, CacheTypes, IsLawfulTypes}
use edge_cdn_store.Disk.Paths.{DiskCache}
use edge_cdn_store.Disk.Miss.{Stamp, MissFinishType}
use edge_cdn_store.Disk.Hit.{DiskHitHandler}
use edge_cdn_store.Disk.Hit.Serve.{serve_all}
use edge_cdn_store.Disk.Store.{lookup}
use edge_cdn_store.Disk.Store.Insert.{store_response}
use edge_cdn_store.Disk.Store.RoundTrip.{serve_all-store_response}
use edge_cdn_store.Host.RoundTrip.{IsName}
use edge_cdn_store.Proxy.{
  Session, EdgeCdnProxy, request_cache_filter, cache_key_callback, upstream_peer, forbids_store,
}
use edge_cdn_store.Proxy.Key.{with_host, cache_key_callback-ports}
use edge_cdn_store.Proxy.Response.{response_cache_filter_iff}
use edge_cdn_store.Delivery.{Answer, find_response, keep_response}
use edge_cdn_store.Delivery.Kept.{keep_response_ok, find_response_lem}

abbrev pub at_port : Session → Text → ℕ → Session
at_port s host n = with_host s (host ++ b':' ∷ decimal n)

module _ (F : FileSystem) (L : IsLawful F) (P : CacheTypes) (LP : IsLawfulTypes P) (c : DiskCache)
    (IsHealthy : F.State → Type 0) (R : IsReliable F IsHealthy) (new_key : Text → P.CacheKey)
    (new_meta : Answer → ℕ → ℕ → P.CacheMeta) (x : EdgeCdnProxy) where
  -- After the origin's answer to a request was kept, and if the file system is then healthy, every
  -- request that may use the cache and has the same key is a hit: it gets the metadata of that
  -- answer, fresh for an hour from when it was kept, and a run of reads ends and returns the body
  -- of that answer. The answer has a 2xx status and a Cache-Control header that does not forbid
  -- keeping it. Fuel above the length of the body is enough.
  pub find_response-keep_response :
      (t t' : Stamp) (now fuel : ℕ) (s s' : Session) (a : Answer) (w : World F) (r : MissFinishType)
      → (keep_response F P c new_key new_meta x t now s a w).0 ≡ ok (some r)
      → IsHealthy (keep_response F P c new_key new_meta x t now s a w).1.fs
      → request_cache_filter x s' ≡ true
      → cache_key_callback x s' ≡ cache_key_callback x s
      → length (concat a.body) < fuel
      → let w' = (keep_response F P c new_key new_meta x t now s a w).1 in
        let d = find_response F P c new_key new_meta x t' s' w' in
        (200 ≤ a.status)
        × (a.status ≤ 299)
        × (forbids_store a.cache_control ≡ false)
        × (h : DiskHitHandler F) × (h' : DiskHitHandler F) × (w'' : World F) × (d.0
            ≡ ok (some (new_meta a (now + 3600) now, h)))
        × (serve_all F fuel h d.1 ≡ some (ok (concat a.body), h', w''))
  find_response-keep_response t t' now fuel s s' a w r kept healthy used same_key more =
      let k = keep_response_ok F P c new_key new_meta x t now s a w r kept in
      let m = new_meta a (now + 3600) now in
      let stores = store_response F P c (new_key k.key) m t a.body w in
      let (low, high, free, _, _) =
        (response_cache_filter_iff a.status a.cache_control now (now + 3600) now).0 k.admitted in
      let calm = subst (λ (v : World F). IsHealthy v.fs) k.same healthy in
      let (h, h', w'', found, served) =
        serve_all-store_response F L P LP c IsHealthy R (new_key k.key) m t a.body w r fuel k.stored
          calm more in
      let w' = (keep_response F P c new_key new_meta x t now s a w).1 in
      let asked =
        find_response_lem F P c new_key new_meta x t' s' k.key w' used (same_key ∙ k.keyed)
        ∙ ap (lookup F P c (new_key k.key)) k.same in
      (
        low,
        high,
        free,
        h,
        h',
        w'',
        ap (λ q. q.0) asked ∙ found,
        ap (λ q. serve_all F fuel h q.1) asked ∙ served,
      )

  -- Two requests name one host, and two different ports. After the origin's answer to the first
  -- was kept, and if the file system is then healthy, the second, if it may use the cache, is
  -- answered with the body and the metadata of the first one's answer, although its peer is a
  -- different one. Fuel above the length of the body is enough.
  pub find_response-ports :
      (t t' : Stamp) (now fuel n n' : ℕ) (s : Session) (host : Text) (a : Answer) (w : World F)
      (r : MissFinishType)
      → IsName host
      → n ≤ 65535
      → n' ≤ 65535
      → n ≢ n'
      → (keep_response F P c new_key new_meta x t now (at_port s host n) a w).0 ≡ ok (some r)
      → IsHealthy (keep_response F P c new_key new_meta x t now (at_port s host n) a w).1.fs
      → request_cache_filter x (at_port s host n') ≡ true
      → length (concat a.body) < fuel
      → let w' = (keep_response F P c new_key new_meta x t now (at_port s host n) a w).1 in
        let d = find_response F P c new_key new_meta x t' (at_port s host n') w' in
        (upstream_peer x (at_port s host n) ≢ upstream_peer x (at_port s host n'))
        × (h : DiskHitHandler F) × (h' : DiskHitHandler F) × (w'' : World F) × (d.0
            ≡ ok (some (new_meta a (now + 3600) now, h)))
        × (serve_all F fuel h d.1 ≡ some (ok (concat a.body), h', w''))
  find_response-ports t t' now fuel n n' s host a w r name k k' ne kept healthy used more =
      let (key, apart) = cache_key_callback-ports x s host n n' name k k' ne in
      let (_, _, _, h, h', w'', found, served) =
        find_response-keep_response t t' now fuel (at_port s host n) (at_port s host n') a w r kept
          healthy used (sym key) more in
      (apart, h, h', w'', found, served)
