-- ===== src/Startup/Cells/Shared.antt =====
-- One cache for the whole process.
use edge_cdn_store.Common.{
  ℕ, ◌≡◌, refl, ap, ◌∙◌, true, Option, none, some, Result, ok, arith, Option-cases, inl, inr,
}
use edge_cdn_store.Utils.{Environment}
use edge_cdn_store.Disk.World.{CacheMetrics}
use edge_cdn_store.Disk.Registry.{IsLawfulRegistry, all_metrics}
use edge_cdn_store.Disk.Registry.Once.{are_free}
use edge_cdn_store.Disk.Paths.{DiskCache}
use edge_cdn_store.Startup.{Statics, unset, eviction_manager_cfg}
use edge_cdn_store.Startup.Paths
use edge_cdn_store.Startup.Paths.{
  use_runtime, use_cache, use_keys, use_app_log, use_panic_log, use_max_bytes,
}
use edge_cdn_store.Common.State.{Failure}
use edge_cdn_store.Startup.Cells.First.{
  paths_limit, cfg_limit, cfg_set, tiers_of, made_now, disk_cache_first, disk_cache_set,
  tiered_static_first, tiered_static_set, eviction_manager_first, eviction_manager_set,
}
use edge_cdn_store.Startup.Cells.{
  Libraries, TieredStatic, Process, disk_cache, tiered_static, eviction_manager,
}

module _ (X : Libraries) where
  -- A use of one of the cells, or a change of the files and of the metrics by a request.
  pub data Use (p : Process X) : Process X → Type 0 where
    use_disk_cache : (env : Environment) (now : ℕ) → Use p (disk_cache X env now p).1
    use_tiers : (env : Environment) (now : ℕ) → Use p (tiered_static X env now p).1
    use_manager : (env : Environment) → Use p (eviction_manager X env p).1
    use_statics : {st : Statics} → Paths.Use p.statics st → Use p (record p { statics = st })
    serve : (s : X.files.State) (m : Option CacheMetrics) → Use p (record p { fs = s; metrics = m })

  pub data Reach : Process X → Type 0 where
    fresh :
        (s : X.files.State) (r : X.registry.State)
        → are_free X.registry all_metrics r ≡ true
        → Reach (record {
          fs = s;
          registry = r;
          statics = unset;
          metrics = none;
          cache_cell = none;
          tiered_cell = none;
          manager_cell = none;
        })
    later : {p p' : Process X} → Reach p → Use p p' → Reach p'

  -- The metrics can still be made as long as the cache was not, and the tiers have the cache.
  abbrev Unmade : Process X → Option DiskCache → Type 0
  Unmade p none = are_free X.registry all_metrics p.registry ≡ true
  Unmade p (some c) = Unit

  abbrev Primary : Option DiskCache → Option TieredStatic → Type 0
  Primary cell none = Unit
  Primary cell (some t) = (cell ≡ some t.primary) × (t ≡ tiers_of t.primary)

  abbrev Limited : Option X.Manager → Option ℕ → Type 0
  Limited none limit = Unit
  Limited (some m) none = ⊥
  Limited (some m) (some n) = m ≡ X.new_manager n

  pub record IsReady (p : Process X) : Type 0 where
    pub unmade : Unmade p p.cache_cell
    pub primary : Primary p.cache_cell p.tiered_cell
    pub limited : Limited p.manager_cell p.statics.max_bytes_cell

module _ (X : Libraries) (L : IsLawfulRegistry X.registry) where
  cfg_Limited :
      (env : Environment) (st : Statics) (m : Option X.Manager)
      → Limited X m st.max_bytes_cell
      → Limited X m (eviction_manager_cfg env st).1.max_bytes_cell
  unfolding eviction_manager_cfg
  cfg_Limited env st none h = tt
  cfg_Limited env st (some m) h = ground (arith, h)

  tiers_are_unset :
      (c : DiskCache) (t : Option TieredStatic) → Primary X none t → Primary X (some c) t
  tiers_are_unset c none h = tt
  tiers_are_unset c (some t) h = cc (h.0)

  pub disk_cache_ok :
      (env : Environment) (now : ℕ) (p : Process X)
      → IsReady X p
      → (c : DiskCache) × ((disk_cache X env now p).0 ≡ ok c)
        × ((disk_cache X env now p).1.cache_cell ≡ some c)
        × ((disk_cache X env now p).1.tiered_cell ≡ p.tiered_cell)
        × IsReady X (disk_cache X env now p).1
  disk_cache_ok env now p i = elim (Option-cases p.cache_cell) [
    | inl missing ↦
        let (said, cell, tiers, manager, statics) =
          disk_cache_first X L env now p missing (rw missing at i.unmade) in
        (
          made_now X env now p,
          said,
          cell,
          tiers,
          record {
            unmade = rw cell tt;
            primary = rw (cell, tiers) (tiers_are_unset _ p.tiered_cell (rw missing at i.primary));
            limited =
                rw (manager, statics)
                  (cfg_Limited env _ _ (rw (paths_limit env p.statics).1 i.limited));
          },
        )
    | inr (c, made) ↦ rw (disk_cache_set X L env now p c made) (c, refl, made, refl, i)
  ]

  tiered_static_ok :
      (env : Environment) (now : ℕ) (p : Process X)
      → IsReady X p
      → (c : DiskCache) × ((tiered_static X env now p).0 ≡ ok (tiers_of c))
        × ((tiered_static X env now p).1.cache_cell ≡ some c)
        × IsReady X (tiered_static X env now p).1
  tiered_static_ok env now p i = elim (Option-cases p.tiered_cell) [
    | inl missing ↦
        let (c, said, cell, tiers, ready) = disk_cache_ok env now p i in
        rw (tiered_static_first X L env now p c missing said) (
          c,
          refl,
          cell,
          record { unmade = rw cell tt; primary = (cell, refl); limited = ready.limited },
        )
    | inr (t, made) ↦
        let (cell, shape) = (rw made at i.primary) in
        rw (tiered_static_set X L env now p t made) (t.primary, ap ok shape, cell, i)
  ]

  pub tiered_static_of :
      (env : Environment) (now : ℕ) (p : Process X) (c : DiskCache)
      → IsReady X p
      → p.cache_cell ≡ some c
      → (tiered_static X env now p).0 ≡ ok (tiers_of c)
  tiered_static_of env now p c i cell = elim (Option-cases p.tiered_cell) [
    | inl missing ↦ rw (
        tiered_static_first X L env now p c missing (
          ap (λ (d : Result Failure DiskCache × Process X). d.0)
            (disk_cache_set X L env now p c cell)))
    | inr (t, made) ↦
        let (cell', shape) = (rw made at i.primary) in
        let same : t.primary ≡ c = cc (cell, cell') in
        rw (tiered_static_set X L env now p t made) (ap ok (shape ∙ ap tiers_of same))
  ]

  eviction_manager_ok :
      (env : Environment) (p : Process X)
      → IsReady X p
      → (n : ℕ) × ((eviction_manager X env p).0 ≡ ok (X.new_manager n))
        × ((eviction_manager X env p).1.statics.max_bytes_cell ≡ some n)
        × IsReady X (eviction_manager X env p).1
  eviction_manager_ok env p i = elim (Option-cases p.manager_cell) [
    | inl missing ↦ rw (eviction_manager_first X L env p missing) (
      (eviction_manager_cfg env p.statics).0,
      refl,
      cfg_limit env p.statics,
      record {
        unmade = i.unmade;
        primary = i.primary;
        limited = rw (cfg_limit env p.statics) refl;
      },
    )
    | inr (m, made) ↦ elim (Option-cases p.statics.max_bytes_cell) [
      | inl missing ↦ absurd (rw (made, missing) at i.limited)
      | inr (n, limit) ↦
          let same = (rw (made, limit) at i.limited) in
          rw (eviction_manager_set X L env p m made) (n, ap ok same, limit, i)
    ]
  ]

  statics_limit :
      {st st' : Statics} (u : Paths.Use st st') (m : Option X.Manager)
      → Limited X m st.max_bytes_cell
      → Limited X m st'.max_bytes_cell
  statics_limit {st} (use_runtime env) m h = rw (paths_limit env st).0 h
  statics_limit {st} (use_cache env) m h = rw (paths_limit env st).1 h
  statics_limit {st} (use_keys env) m h = rw (paths_limit env st).2 h
  statics_limit {st} (use_app_log env) m h = rw (paths_limit env st).3 h
  statics_limit {st} (use_panic_log env) m h = rw (paths_limit env st).4 h
  statics_limit (use_max_bytes env) m h = cfg_Limited env _ m h

  pub Use-IsReady : {p p' : Process X} → Use X p p' → IsReady X p → IsReady X p'
  Use-IsReady {p} (use_disk_cache env now) i = (disk_cache_ok env now p i).4
  Use-IsReady {p} (use_tiers env now) i = (tiered_static_ok env now p i).3
  Use-IsReady {p} (use_manager env) i = (eviction_manager_ok env p i).3
  Use-IsReady {p} (use_statics u) i = record {
    unmade = i.unmade;
    primary = i.primary;
    limited = statics_limit u p.manager_cell i.limited;
  }
  Use-IsReady {p} (serve s m) i = record {
    unmade = i.unmade;
    primary = i.primary;
    limited = i.limited;
  }

  pub Reach-IsReady : {p : Process X} → Reach X p → IsReady X p
  Reach-IsReady (fresh s r free) = record { unmade = free; primary = tt; limited = tt }
  Reach-IsReady (later r u) = Use-IsReady u (Reach-IsReady r)

  -- In whatever order the cells are used, and whatever the environment is at each use: the cache,
  -- the tiers and the eviction manager can be had without a panic; there is one cache, which the
  -- tiers have as their primary; and the limit of the manager is the one that is given later.
  pub cells_shared :
      (env env' : Environment) (now now' : ℕ) {p : Process X}
      → Reach X p
      → (c : DiskCache) × ((disk_cache X env now p).0 ≡ ok c)
        × (let p' = (disk_cache X env now p).1 in
            (disk_cache X env' now' p' ≡ (ok c, p'))
            × ((tiered_static X env' now' p').0 ≡ ok (tiers_of c)))
        × (n : ℕ) × ((eviction_manager X env p).0 ≡ ok (X.new_manager n))
        × ((eviction_manager_cfg env' (eviction_manager X env p).1.statics).0 ≡ n)
  cells_shared env env' now now' {p} r =
      let i = Reach-IsReady r in
      let (c, said, cell, tiers, ready) = disk_cache_ok env now p i in
      let (n, manager, limit, after) = eviction_manager_ok env p i in
      let p' = (disk_cache X env now p).1 in
      (
        c,
        said,
        (disk_cache_set X L env' now' p' c cell, tiered_static_of env' now' p' c ready cell),
        n,
        manager,
        ap (λ (r : ℕ × Statics). r.0) (cfg_set env' (eviction_manager X env p).1.statics n limit),
      )
