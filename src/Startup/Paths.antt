-- ===== src/Startup/Paths.antt =====
-- The directories agree with one another, in whatever order they are first asked for.
use edge_cdn_store.Common.{◌≡◌, ◌++◌, Option, none, some, arith}
use edge_cdn_store.Common.Text.{Text, codes}
use edge_cdn_store.Utils.{Environment}
use edge_cdn_store.Startup.{
  Statics, unset, runtime_dir, cache_dir, server_keys_dir, path_to_app_log, path_to_panic_log,
  eviction_manager_cfg,
}

-- A path that was asked for is the runtime directory, which is fixed by then, with its suffix.
abbrev IsBelow : Option Text → Option Text → Text → Type 0
IsBelow none dir suffix = Unit
IsBelow (some path) none suffix = ⊥
IsBelow (some path) (some dir) suffix = path ≡ dir ++ suffix

pub record IsCoherent (st : Statics) : Type 0 where
  pub cache_below : IsBelow st.cache_cell st.runtime_cell (codes "/cache")
  pub keys_below : IsBelow st.keys_cell st.runtime_cell (codes "/keys")
  pub app_log_below : IsBelow st.app_log_cell st.runtime_cell (codes "/app.log")
  pub panic_log_below : IsBelow st.panic_log_cell st.runtime_cell (codes "/panic.log")

-- The cells are used one at a time, and the environment may be another one at each use.
pub data Use (st : Statics) : Statics → Type 0 where
  use_runtime : (env : Environment) → Use st (runtime_dir env st).1
  use_cache : (env : Environment) → Use st (cache_dir env st).1
  use_keys : (env : Environment) → Use st (server_keys_dir env st).1
  use_app_log : (env : Environment) → Use st (path_to_app_log env st).1
  use_panic_log : (env : Environment) → Use st (path_to_panic_log env st).1
  use_max_bytes : (env : Environment) → Use st (eviction_manager_cfg env st).1

pub data Reach : Statics → Type 0 where
  fresh : Reach unset
  later : {st st' : Statics} → Reach st → Use st st' → Reach st'

Use-IsCoherent : {st st' : Statics} → Use st st' → IsCoherent st → IsCoherent st'
unfolding runtime_dir cache_dir server_keys_dir path_to_app_log path_to_panic_log
    eviction_manager_cfg
Use-IsCoherent (use_runtime env) i = ground arith
Use-IsCoherent (use_cache env) i = ground arith
Use-IsCoherent (use_keys env) i = ground arith
Use-IsCoherent (use_app_log env) i = ground arith
Use-IsCoherent (use_panic_log env) i = ground arith
Use-IsCoherent (use_max_bytes env) i = ground arith

unset-IsCoherent : IsCoherent unset
unset-IsCoherent = record {
  cache_below = tt;
  keys_below = tt;
  app_log_below = tt;
  panic_log_below = tt;
}

Reach-IsCoherent : {st : Statics} → Reach st → IsCoherent st
Reach-IsCoherent fresh = unset-IsCoherent
Reach-IsCoherent (later r u) = Use-IsCoherent u (Reach-IsCoherent r)

module _ (st : Statics) (env' : Environment) (dir : Text) where
  cache_dir_at :
      IsCoherent st → st.runtime_cell ≡ some dir → (cache_dir env' st).0 ≡ dir ++ codes "/cache"
  unfolding cache_dir runtime_dir
  cache_dir_at i e = ground (arith, i.cache_below)

  server_keys_dir_at :
      IsCoherent st
      → st.runtime_cell ≡ some dir
      → (server_keys_dir env' st).0 ≡ dir ++ codes "/keys"
  unfolding server_keys_dir runtime_dir
  server_keys_dir_at i e = ground (arith, i.keys_below)

  path_to_app_log_at :
      IsCoherent st
      → st.runtime_cell ≡ some dir
      → (path_to_app_log env' st).0 ≡ dir ++ codes "/app.log"
  unfolding path_to_app_log runtime_dir
  path_to_app_log_at i e = ground (arith, i.app_log_below)

  path_to_panic_log_at :
      IsCoherent st
      → st.runtime_cell ≡ some dir
      → (path_to_panic_log env' st).0 ≡ dir ++ codes "/panic.log"
  unfolding path_to_panic_log runtime_dir
  path_to_panic_log_at i e = ground (arith, i.panic_log_below)

runtime_dir_fixed :
    (env : Environment) (st : Statics)
    → (runtime_dir env st).1.runtime_cell ≡ some (runtime_dir env st).0
unfolding runtime_dir
runtime_dir_fixed env st = ground arith

-- After any uses of the cells, in any order and under changing environments, the cache, the keys
-- and the two logs are below one runtime directory: the one that is given now.
pub runtime_dir_shared :
    {st : Statics} (env env' : Environment)
    → Reach st
    → let dir = (runtime_dir env st).0 in
      let st' = (runtime_dir env st).1 in
      ((cache_dir env' st').0 ≡ dir ++ codes "/cache")
      × ((server_keys_dir env' st').0 ≡ dir ++ codes "/keys")
      × ((path_to_app_log env' st').0 ≡ dir ++ codes "/app.log")
      × ((path_to_panic_log env' st').0 ≡ dir ++ codes "/panic.log")
runtime_dir_shared {st} env env' r =
    let st' = (runtime_dir env st).1 in
    let dir = (runtime_dir env st).0 in
    let i = Use-IsCoherent (use_runtime env) (Reach-IsCoherent r) in
    let e = runtime_dir_fixed env st in
    (
      cache_dir_at st' env' dir i e,
      server_keys_dir_at st' env' dir i e,
      path_to_app_log_at st' env' dir i e,
      path_to_panic_log_at st' env' dir i e,
    )
