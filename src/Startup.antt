-- ===== src/Startup.antt =====
-- Start-up: the directories and limits that are fixed at their first use (src/statics.rs, the cells
-- of src/disk_cache/mod.rs), and what `main` (src/main.rs) starts.
pub mod Paths
pub mod Cells
pub mod Main
pub mod Listen
mod Tests
use edge_cdn_store.Common.{ℕ, ◌-◌, ◌*◌, ◌^◌, ◌++◌, Option, none, some}
use edge_cdn_store.Common.Text.{Text, codes}
use edge_cdn_store.Common.Str.{parse_unsigned}
use edge_cdn_store.Utils.{Environment, env_var_or_str, env_var_or_num}

-- consts.rs
abbrev pub default_proxy_port_http : ℕ
default_proxy_port_http = 6188

abbrev pub default_proxy_port_https : ℕ
default_proxy_port_https = 6143

abbrev pub default_cache_size_bytes : ℕ
default_cache_size_bytes = 2 * 1024 * 1024 * 1024

abbrev pub default_runtime_dir : Text
default_runtime_dir = codes "/tmp/edge-cdn-store"

-- The `OnceLock` cells of the process: `none` until the first use.
pub record Statics : Type 0 where
  pub runtime_cell : Option Text
  pub cache_cell : Option Text
  pub keys_cell : Option Text
  pub app_log_cell : Option Text
  pub panic_log_cell : Option Text
  pub max_bytes_cell : Option ℕ

abbrev pub unset : Statics
unset = record {
  runtime_cell = none;
  cache_cell = none;
  keys_cell = none;
  app_log_cell = none;
  panic_log_cell = none;
  max_bytes_cell = none;
}

abbrev get_or_init {ℓ} :
    {A : Type ℓ}
    → Option A
    → (Statics → A × Statics)
    → (A → Statics → Statics)
    → Statics
    → A × Statics
get_or_init (some a) init set st = (a, st)
get_or_init none init set st = let (a, st') = init st in (a, set a st')

unfoldable pub runtime_dir : Environment → Statics → Text × Statics
runtime_dir env st =
    get_or_init st.runtime_cell
      (λ s. (env_var_or_str env (codes "EDGE_RUNTIME_DIR") default_runtime_dir, s))
      (λ a s. record s { runtime_cell = some a }) st

-- `format!("{}/...", runtime_dir())`
below_runtime_dir : Text → Environment → Statics → Text × Statics
below_runtime_dir suffix env st = let (dir, st') = runtime_dir env st in (dir ++ suffix, st')

unfoldable pub cache_dir : Environment → Statics → Text × Statics
unfolding below_runtime_dir
cache_dir env st =
    get_or_init st.cache_cell (below_runtime_dir (codes "/cache") env)
      (λ a s. record s { cache_cell = some a }) st

unfoldable pub server_keys_dir : Environment → Statics → Text × Statics
unfolding below_runtime_dir
server_keys_dir env st =
    get_or_init st.keys_cell (below_runtime_dir (codes "/keys") env)
      (λ a s. record s { keys_cell = some a }) st

unfoldable pub path_to_app_log : Environment → Statics → Text × Statics
unfolding below_runtime_dir
path_to_app_log env st =
    get_or_init st.app_log_cell (below_runtime_dir (codes "/app.log") env)
      (λ a s. record s { app_log_cell = some a }) st

unfoldable pub path_to_panic_log : Environment → Statics → Text × Statics
unfolding below_runtime_dir
path_to_panic_log env st =
    get_or_init st.panic_log_cell (below_runtime_dir (codes "/panic.log") env)
      (λ a s. record s { panic_log_cell = some a }) st

-- `usize` has 64 bits.
unfoldable pub parse_usize : Text → Option ℕ
parse_usize = parse_unsigned (2 ^ 64 - 1)

unfoldable pub eviction_manager_cfg : Environment → Statics → ℕ × Statics
eviction_manager_cfg env st =
    get_or_init st.max_bytes_cell
      (λ s. (env_var_or_num parse_usize env (codes "CACHE_SIZE_BYTES") default_cache_size_bytes, s))
      (λ a s. record s { max_bytes_cell = some a }) st
