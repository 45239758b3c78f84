-- ===== src/Disk/Registry.antt =====
-- `CacheMetrics::new` (src/metrics.rs): each metric is registered under its name, and a name that
-- is taken ends in a panic.
pub mod Once
use edge_cdn_store.Common.{ℕ, ◌≡◌, Bool, true, false, ◌||◌, List, [], ◌∷◌, Result, ok, err}
use edge_cdn_store.Common.Text.{Text, codes, text_eq}
use edge_cdn_store.Common.State.{M, pure, ◌>>=◌, ◌>>◌, panicked}
use edge_cdn_store.Disk.World.{CacheMetrics, new_metrics}

-- The default registry of prometheus: registering a metric under a name with a text of help.
pub record Registry : Type 1 where
  pub State : Type 0
  pub register : Text → Text → State → Result (Unit {0}) (Unit {0}) × State
  pub is_taken : State → Text → Bool

-- It documents that a name can be registered once, and that a failed call registers nothing.
pub record IsLawfulRegistry (G : Registry) : Type 0 where
  pub register_free :
      (name help : Text) (s : G.State)
      → G.is_taken s name ≡ false
      → (G.register name help s).0 ≡ ok tt
  pub register_taken :
      (name help : Text) (s : G.State)
      → G.is_taken s name ≡ true
      → (G.register name help s).0 ≡ err tt
  pub is_taken-register :
      (name help : Text) (s : G.State) (other : Text)
      → G.is_taken s name ≡ false
      → G.is_taken (G.register name help s).1 other ≡ (text_eq name other || G.is_taken s other)

-- The names of the metrics and their texts of help, in the order of the source.
abbrev pub all_metrics : List (Text × Text)
all_metrics =
    (codes "cache_lookup_hits", codes "Cache lookup hits")
    ∷ (codes "cache_served_hits", codes "Cache served hits")
    ∷ (codes "cache_misses", codes "Cache misses")
    ∷ (codes "cache_inserts", codes "Cache insertions")
    ∷ (codes "purge_attempts", codes "Purge attempts")
    ∷ (codes "cache_evictions", codes "Successful cache evictions")
    ∷ (codes "evicted_bytes", codes "Total bytes evicted")
    ∷ (codes "cache_size_bytes", codes "Current cache size in bytes")
    ∷ []

module _ (G : Registry) where
  unwrap_registered : Result (Unit {0}) (Unit {0}) → M G.State (Unit {0})
  unwrap_registered (ok _) s = (ok tt, s)
  unwrap_registered (err _) s = (err panicked, s)

  -- `register_int_counter!(name, help).unwrap()`, and the same for a gauge.
  unfoldable pub register_or_panic : Text → Text → M G.State (Unit {0})
  unfolding unwrap_registered
  register_or_panic name help s = let (r, s') = G.register name help s in unwrap_registered r s'

  unfoldable pub register_all : List (Text × Text) → M G.State (Unit {0})
  unfolding register_or_panic
  register_all [] = pure tt
  register_all ((name, help) ∷ metrics) = do register_or_panic name help; register_all metrics

  -- `CacheMetrics::new`: the fields are made in the order in which they are written.
  unfoldable pub registered_metrics : ℕ → M G.State CacheMetrics
  registered_metrics size_bytes = do register_all all_metrics; pure (new_metrics size_bytes)
