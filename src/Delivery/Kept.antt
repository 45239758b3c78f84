-- ===== src/Delivery/Kept.antt =====
-- What the two ways of a request come to: an answer that is kept was admitted, and is stored by the
-- disk cache; a request that may use the cache is looked up there.
use mathlib.Core.Path.{ap₂}
use edge_cdn_store.Common.{
  ℕ, ◌+◌, ◌≡◌, refl, sym, ◌∙◌, ap, inl, inr, Option, none, some, Bool-cases, Result, ok, err,
  Result-cases, true, arith,
}
use edge_cdn_store.Common.Text.{Text}
use edge_cdn_store.Common.State.{M, pure, then_on, Failure, ◌>>=◌}
use edge_cdn_store.Disk.Files.{FileSystem}
use edge_cdn_store.Disk.World.{World, CacheTypes}
use edge_cdn_store.Disk.Paths.{DiskCache}
use edge_cdn_store.Disk.Miss.{Stamp, MissFinishType, finish}
use edge_cdn_store.Disk.Miss.Write.{write_pieces}
use edge_cdn_store.Disk.Store.{lookup, get_miss_handler}
use edge_cdn_store.Disk.Store.Insert.{store_response}
use edge_cdn_store.Proxy.{
  Session, EdgeCdnProxy, RespCacheable, cacheable, non_success, origin_not_cache,
  request_cache_filter, cache_key_callback, response_cache_filter,
}
use edge_cdn_store.Proxy.Response.{response_cache_filter_iff}
use edge_cdn_store.Tiered.{tiered_cache, primary_only, tiered_get_miss_handler}
use edge_cdn_store.Tiered.Order.{tiered_get_miss_handler_policy, tiered_lookup-alone}
use edge_cdn_store.Delivery.{Answer, find_response, keep_response}

then_assoc {ℓ κ} :
    {S : Type ℓ} {B C D : Type κ} (k : B → M S C) (g : C → M S D) (q : Result Failure B) (s : S)
    → then_on (λ b. k b >>= g) q s ≡ then_on g (then_on k q s).0 (then_on k q s).1
then_assoc k g (err e) s = refl
then_assoc k g (ok b) s = refl

-- A call whose answer is wrapped succeeds as the call does, in the same state.
wrapped_ok {ℓ κ} :
    {S : Type ℓ} {A : Type κ} (q : Result Failure A) (s : S) (r : A)
    → (then_on (λ a. pure (some a)) q s).0 ≡ ok (some r)
    → (q ≡ ok r) × ((then_on (λ a. pure (some a)) q s).1 ≡ s)
wrapped_ok (err e) s r h = absurd (cc h)
wrapped_ok (ok a) s r h = (cc h, refl)

none-ne-some {ℓ} :
    {A : Type ℓ} {r : A} → ◌≡◌ {A = Result Failure (Option A)} (ok none) (ok (some r)) → ⊥
none-ne-some h = cc h

stages_assoc {ℓ κ} :
    {S : Type ℓ} {A B C D : Type κ} (f : A → M S B) (k : B → M S C) (g : C → M S D)
    (q : Result Failure A) (s : S)
    → then_on (λ a. f a >>= λ b. k b >>= g) q s
      ≡ then_on g (then_on (λ a. f a >>= k) q s).0 (then_on (λ a. f a >>= k) q s).1
stages_assoc f k g (err e) s = refl
stages_assoc f k g (ok a) s = then_assoc k g (f a s).0 (f a s).1

module _ (F : FileSystem) (P : CacheTypes) (c : DiskCache) (new_key : Text → P.CacheKey)
    (new_meta : Answer → ℕ → ℕ → P.CacheMeta) (x : EdgeCdnProxy) where
  -- A request that may use the cache is answered by the disk cache.
  pub find_response_lem :
      (t : Stamp) (s : Session) (key : Text) (w : World F)
      → request_cache_filter x s ≡ true
      → cache_key_callback x s ≡ ok key
      → find_response F P c new_key new_meta x t s w ≡ lookup F P c (new_key key) w
  unfolding find_response
  find_response_lem t s key w used keyed =
      rw (used, keyed) (tiered_lookup-alone (tiered_cache F P c t) (new_key key) w)

  -- What is known of an answer that was kept.
  pub record Kept (t : Stamp) (now : ℕ) (s : Session) (a : Answer) (w : World F)
      (r : MissFinishType) : Type 0 where
    pub key : Text
    pub used : request_cache_filter x s ≡ true
    pub keyed : cache_key_callback x s ≡ ok key
    pub admitted : response_cache_filter a.status a.cache_control now ≡ cacheable (now + 3600) now
    pub stored :
        (store_response F P c (new_key key) (new_meta a (now + 3600) now) t a.body w).0 ≡ ok r
    pub same :
        (keep_response F P c new_key new_meta x t now s a w).1
        ≡ (store_response F P c (new_key key) (new_meta a (now + 3600) now) t a.body w).1

  policy_free :
      (t : Stamp) (k : P.CacheKey) (m : P.CacheMeta) (w : World F)
      → tiered_get_miss_handler (tiered_cache F P c t) k m w ≡ get_miss_handler F P c k m t w
  policy_free t k m w = tiered_get_miss_handler_policy (tiered_cache F P c t) primary_only k m w

  pub keep_response_lem :
      (t : Stamp) (now expiry created : ℕ) (s : Session) (a : Answer) (key : Text) (w : World F)
      → request_cache_filter x s ≡ true
      → cache_key_callback x s ≡ ok key
      → response_cache_filter a.status a.cache_control now ≡ cacheable expiry created
      → keep_response F P c new_key new_meta x t now s a w
        ≡ (do
          r ← store_response F P c (new_key key) (new_meta a expiry created) t a.body
          pure (some r))
            w
  unfolding keep_response store_response
  keep_response_lem t now expiry created s a key w used keyed admitted =
      let k = new_key key in
      let m = new_meta a expiry created in
      rw (used, keyed, admitted)
        (rw (policy_free t k m w) (
          stages_assoc (write_pieces F a.body) (finish F) (λ r. pure (some r))
            (get_miss_handler F P c k m t w).0 (get_miss_handler F P c k m t w).1))

  admitted_at :
      (t : Stamp) (now : ℕ) (s : Session) (a : Answer) (key : Text) (w : World F)
      (r : MissFinishType) (d : RespCacheable)
      → request_cache_filter x s ≡ true
      → cache_key_callback x s ≡ ok key
      → response_cache_filter a.status a.cache_control now ≡ d
      → (keep_response F P c new_key new_meta x t now s a w).0 ≡ ok (some r)
      → Kept t now s a w r
  unfolding keep_response
  admitted_at t now s a key w r non_success used keyed e kept =
      absurd (none-ne-some (sym (rw (used, keyed, e) refl) ∙ kept))
  admitted_at t now s a key w r origin_not_cache used keyed e kept =
      absurd (none-ne-some (sym (rw (used, keyed, e) refl) ∙ kept))
  admitted_at t now s a key w r (cacheable expiry created) used keyed e kept =
      let (_, _, _, later, now_then) =
        (response_cache_filter_iff a.status a.cache_control now expiry created).0 e in
      let admitted = e ∙ ap₂ cacheable later now_then in
      let run = keep_response_lem t now (now + 3600) now s a key w used keyed admitted in
      let k = new_key key in
      let m = new_meta a (now + 3600) now in
      let d = store_response F P c k m t a.body w in
      let ends = wrapped_ok d.0 d.1 r (sym (ap (λ q. q.0) run) ∙ kept) in
      record {
        key = key;
        used = used;
        keyed = keyed;
        admitted = admitted;
        stored = ends.0;
        same = ap (λ q. q.1) run ∙ ends.1;
      }

  -- Only an admitted answer to a request that may use the cache is kept.
  pub keep_response_ok :
      (t : Stamp) (now : ℕ) (s : Session) (a : Answer) (w : World F) (r : MissFinishType)
      → (keep_response F P c new_key new_meta x t now s a w).0 ≡ ok (some r)
      → Kept t now s a w r
  unfolding keep_response
  keep_response_ok t now s a w r kept = elim (Bool-cases (request_cache_filter x s)) [
    | inr off ↦ absurd (none-ne-some (sym (rw off refl) ∙ kept))
    | inl used ↦ elim (Result-cases (cache_key_callback x s)) [
      | inr (e, failed) ↦ absurd (ground (arith, kept, used, failed))
      | inl (key, keyed) ↦ admitted_at t now s a key w r _ used keyed refl kept
    ]
  ]
