-- ===== src/Tiered/Order.antt =====
-- In which order the tiers are used, and what a failure of one does.
use edge_cdn_store.Common.{
  ◌≡◌, ◌⊎◌, ◌≢◌, ap, refl, Bool, false, ◌||◌, Option, none, some, Result, ok, err, arith,
  Result-cases, inl, inr,
}
use edge_cdn_store.Common.State.{pair_path, then_on, Failure, panicked}
use edge_cdn_store.Disk.World.{CacheTypes}
use edge_cdn_store.Disk.Store.{PurgeType, eviction, invalidation}
use edge_cdn_store.Tiered.{
  Storage, TieredStorage, WritePolicy, write_through_both, primary_only, tiered_lookup,
  tiered_get_miss_handler, tiered_purge, tiered_update_meta, admitted,
}

-- The tiers without the secondary.
abbrev pub alone :
    {W : Type 0} {P : CacheTypes} {H K : Type 0} → TieredStorage W P H K → TieredStorage W P H K
alone t = record t { secondary = none }

-- What a call said of the entry; a failed call said nothing.
abbrev pub said : Result Failure Bool → Bool
said (ok b) = b
said (err e) = false

module _ {W : Type 0} {P : CacheTypes} {H K : Type 0} (t : TieredStorage W P H K)
    (sec : Storage W P H K) (given : t.secondary ≡ some sec) where
  -- Where the primary answers that it has no entry, the answer is the secondary's.
  tiered_lookup_miss :
      (key : P.CacheKey) (w : W)
      → (t.primary.find key w).0 ≡ ok none
      → tiered_lookup t key w ≡ sec.find key (t.primary.find key w).1
  unfolding tiered_lookup
  tiered_lookup_miss key w miss = ground arith

  -- A hit or an error of the primary is final, and the secondary is not asked.
  tiered_lookup_final :
      (key : P.CacheKey) (w : W)
      → (t.primary.find key w).0 ≢ ok none
      → tiered_lookup t key w ≡ t.primary.find key w
  unfolding tiered_lookup
  tiered_lookup_final key w other = elim (Result-cases (t.primary.find key w).0) [
    | inl (none, e) ↦ absurd (other e)
    | inl (some hit, e) ↦ pair_path _ (ground arith) (ground arith)
    | inr (x, e) ↦ pair_path _ (ground arith) (ground arith)
  ]

  -- A lookup asks the primary first, and the secondary exactly when the primary answers that it has
  -- no entry: then the answer is the secondary's, and otherwise it is the primary's, a hit or an
  -- error.
  pub tiered_lookup_order :
      (key : P.CacheKey) (w : W)
      → (((t.primary.find key w).0 ≡ ok none)
          × (tiered_lookup t key w ≡ sec.find key (t.primary.find key w).1))
        ⊎ (((t.primary.find key w).0 ≢ ok none) × (tiered_lookup t key w ≡ t.primary.find key w))
  tiered_lookup_order key w = elim (Result-cases (t.primary.find key w).0) [
    | inl (none, e) ↦ inl (e, tiered_lookup_miss key w e)
    | inl (some hit, e) ↦
        let n : (t.primary.find key w).0 ≢ ok none = λ q. absurd (cc (e, q)) in
        inr (n, tiered_lookup_final key w n)
    | inr (x, e) ↦
        let n : (t.primary.find key w).0 ≢ ok none = λ q. absurd (cc (e, q)) in
        inr (n, tiered_lookup_final key w n)
  ]

  -- An invalidation purges the primary and then the secondary, whatever the primary answered, and
  -- says whether one of them had the entry: an error of either counts as a no, if neither panics.
  pub tiered_purge_invalidation :
      (key : P.CompactCacheKey) (w : W)
      → (t.primary.remove key invalidation w).0 ≢ err panicked
      → (sec.remove key invalidation (t.primary.remove key invalidation w).1).0 ≢ err panicked
      → let d = sec.remove key invalidation (t.primary.remove key invalidation w).1 in
        tiered_purge t key invalidation w
        ≡ (ok (said (t.primary.remove key invalidation w).0 || said d.0), d.1)
  unfolding tiered_purge
  tiered_purge_invalidation key w p q = ground arith

  -- An update of the metadata that fails in the primary is not tried in the secondary.
  tiered_update_meta_err :
      (key : P.CacheKey) (meta : P.CacheMeta) (w : W) (e : Failure)
      → (t.primary.rewrite key meta w).0 ≡ err e
      → tiered_update_meta t key meta w ≡ (err e, (t.primary.rewrite key meta w).1)
  unfolding tiered_update_meta
  tiered_update_meta_err key meta w e h = ground arith

  -- After the primary the secondary is updated; its errors are ignored, and one `true` is enough.
  tiered_update_meta_ok :
      (key : P.CacheKey) (meta : P.CacheMeta) (w : W) (updated : Bool)
      → (t.primary.rewrite key meta w).0 ≡ ok updated
      → (sec.rewrite key meta (t.primary.rewrite key meta w).1).0 ≢ err panicked
      → let d = sec.rewrite key meta (t.primary.rewrite key meta w).1 in
        tiered_update_meta t key meta w ≡ (ok (updated || said d.0), d.1)
  unfolding tiered_update_meta
  tiered_update_meta_ok key meta w updated h n = ground arith

  -- An update of the metadata that fails in the primary fails, and is not tried in the secondary.
  -- After one that succeeds the secondary is updated, whose errors are ignored, and the answer is
  -- whether one of the two had the entry. The secondary must not panic.
  pub tiered_update_meta_order :
      (key : P.CacheKey) (meta : P.CacheMeta) (w : W)
      → (sec.rewrite key meta (t.primary.rewrite key meta w).1).0 ≢ err panicked
      → ((e : Failure) × ((t.primary.rewrite key meta w).0 ≡ err e)
          × (tiered_update_meta t key meta w ≡ (err e, (t.primary.rewrite key meta w).1)))
        ⊎ ((updated : Bool) × ((t.primary.rewrite key meta w).0 ≡ ok updated)
            × (tiered_update_meta t key meta w ≡ (
              ok (updated || said (sec.rewrite key meta (t.primary.rewrite key meta w).1).0),
              (sec.rewrite key meta (t.primary.rewrite key meta w).1).1,
            )))
  tiered_update_meta_order key meta w n = elim (Result-cases (t.primary.rewrite key meta w).0) [
    | inl (updated, e) ↦ inr (updated, e, tiered_update_meta_ok key meta w updated e n)
    | inr (x, e) ↦ inl (x, e, tiered_update_meta_err key meta w x e)
  ]

admitted_same :
    {W : Type 0} {P : CacheTypes} {H K : Type 0} (policy : WritePolicy)
    (sec : Option (Storage W P H K)) (h : K)
    → admitted {W = W} {P = P} {HitHandler = H} policy sec h ≡ h
unfolding admitted
admitted_same primary_only sec h = refl
admitted_same write_through_both none h = refl
admitted_same write_through_both (some sec) h = refl

-- A miss handler is the primary's, under every write policy and with or without a secondary.
pub tiered_get_miss_handler_policy :
    {W : Type 0} {P : CacheTypes} {H K : Type 0} (t : TieredStorage W P H K) (policy : WritePolicy)
    (key : P.CacheKey) (meta : P.CacheMeta) (w : W)
    → tiered_get_miss_handler (record t { write_policy = policy }) key meta w
      ≡ t.primary.miss_handler key meta w
unfolding tiered_get_miss_handler
tiered_get_miss_handler_policy t policy key meta w =
    elim (Result-cases (t.primary.miss_handler key meta w).0) [
      | inl (h, e) ↦
          pair_path _ (rw (e, then_on) (ap ok (admitted_same policy t.secondary h)))
            (rw (e, then_on))
      | inr (x, e) ↦ pair_path _ (rw (e, then_on)) (rw (e, then_on))
    ]

-- With no secondary the tiers are the primary.
module _ {W : Type 0} {P : CacheTypes} {H K : Type 0} (t : TieredStorage W P H K) where
  pub tiered_lookup-alone :
      (key : P.CacheKey) (w : W) → tiered_lookup (alone t) key w ≡ t.primary.find key w
  unfolding tiered_lookup
  tiered_lookup-alone key w = elim (Result-cases (t.primary.find key w).0) [
    | inl (none, e) ↦ pair_path _ (ground arith) (ground arith)
    | inl (some hit, e) ↦ pair_path _ (ground arith) (ground arith)
    | inr (x, e) ↦ pair_path _ (ground arith) (ground arith)
  ]

  pub tiered_purge-alone :
      (key : P.CompactCacheKey) (p : PurgeType) (w : W) (existed : Bool)
      → (t.primary.remove key p w).0 ≡ ok existed
      → tiered_purge (alone t) key p w ≡ t.primary.remove key p w
  unfolding tiered_purge
  tiered_purge-alone key eviction w existed e = pair_path _ (ground arith) (ground arith)
  tiered_purge-alone key invalidation w existed e = pair_path _ (ground arith) (ground arith)

  pub tiered_update_meta-alone :
      (key : P.CacheKey) (meta : P.CacheMeta) (w : W)
      → tiered_update_meta (alone t) key meta w ≡ t.primary.rewrite key meta w
  unfolding tiered_update_meta
  tiered_update_meta-alone key meta w = elim (Result-cases (t.primary.rewrite key meta w).0) [
    | inl (u, e) ↦ pair_path _ (ground arith) (ground arith)
    | inr (x, e) ↦ pair_path _ (ground arith) (ground arith)
  ]
