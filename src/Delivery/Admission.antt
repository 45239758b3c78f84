-- ===== src/Delivery/Admission.antt =====
-- Which answers of the origin are kept, and what is left untouched by the others.
use edge_cdn_store.Common.{◌++◌, some, ℕ, ◌+◌, ◌≤◌, ◌<◌, ◌≡◌, ◌⊎◌, none, some, ok, err}
use edge_cdn_store.Common.Text.{Text, codes, decimal}
use edge_cdn_store.Common.State.{pure, ◌>>=◌, error, ErrorType}
use edge_cdn_store.Disk.Files.{FileSystem}
use edge_cdn_store.Disk.World.{World, CacheTypes}
use edge_cdn_store.Disk.Paths.{DiskCache}
use edge_cdn_store.Disk.Miss.{Stamp}
use edge_cdn_store.Disk.Store.Insert.{store_response}
use edge_cdn_store.Proxy.{new_proxy, Session, EdgeCdnProxy, cache_key_callback}
use edge_cdn_store.Proxy.Response.{HasNoStore}
use edge_cdn_store.Delivery.{Answer, keep_response}

-- The request is addressed to the proxy itself: to the loopback address with one of its ports.
abbrev pub IsOwn : ℕ → ℕ → Session → Type 0
IsOwn http_port https_port s =
    (s.header (codes "Host") ≡ some (codes "127.0.0.1:" ++ decimal http_port))
    ⊎ (s.header (codes "Host") ≡ some (codes "127.0.0.1:" ++ decimal https_port))

-- Why an answer is not kept.
abbrev pub IsRefused : Answer → Type 0
IsRefused a = (a.status < 200) ⊎ (300 ≤ a.status) ⊎ HasNoStore a.cache_control

module _ (F : FileSystem) (P : CacheTypes) (c : DiskCache) (new_key : Text → P.CacheKey)
    (new_meta : Answer → ℕ → ℕ → P.CacheMeta) (http_port https_port : ℕ) (t : Stamp) (now : ℕ)
    (s : Session) (a : Answer) (w : World F) where
  abbrev x : EdgeCdnProxy
  x = new_proxy http_port https_port

  -- The disk cache stores it, as a response that is fresh for an hour, and the result is that of
  -- the store.
  pub record IsStored : Type 0 where
    pub key : Text
    pub used : ¬ IsOwn http_port https_port s
    pub keyed : cache_key_callback x s ≡ ok key
    pub success : (200 ≤ a.status) × (a.status ≤ 299)
    pub allowed : ¬ HasNoStore a.cache_control
    pub run :
        keep_response F P c new_key new_meta x t now s a w
        ≡ (do
          r ← store_response F P c (new_key key) (new_meta a (now + 3600) now) t a.body
          pure (some r))
            w

  -- It is not kept, and no file and no metric changes.
  pub record IsPassed : Type 0 where
    pub why : IsOwn http_port https_port s ⊎ IsRefused a
    pub run : keep_response F P c new_key new_meta x t now s a w ≡ (ok none, w)

  -- The request has no key, which is an error; no file and no metric changes.
  pub record IsKeyless : Type 0 where
    pub cause : ErrorType
    pub used : ¬ IsOwn http_port https_port s
    pub unkeyed : cache_key_callback x s ≡ err cause
    pub run : keep_response F P c new_key new_meta x t now s a w ≡ (err (error cause), w)
