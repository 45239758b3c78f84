-- ===== src/Disk/Registry/Once.antt =====
-- The metrics can be made once in a process.
use edge_cdn_store.Common.{
  ℕ, ◌≡◌, refl, Bool, true, false, not, ◌&&◌, ◌||◌, List, [], ◌∷◌, ok, err, arith,
}
use edge_cdn_store.Common.Text.{Text, codes, text_eq, text_eq_iff, list_eq}
use edge_cdn_store.Common.State.{panicked}
use edge_cdn_store.Disk.World.{new_metrics}
use edge_cdn_store.Disk.Registry.{
  Registry, IsLawfulRegistry, all_metrics, register_or_panic, register_all, registered_metrics,
}

-- A name that is none of these metrics', and metrics of which no two have one name.
unfoldable pub is_other : Text → List (Text × Text) → Bool
unfolding text_eq
is_other name [] = true
is_other name ((other, help) ∷ metrics) = not (text_eq other name) && is_other name metrics

unfoldable pub are_apart : List (Text × Text) → Bool
unfolding is_other
are_apart [] = true
are_apart ((name, help) ∷ metrics) = is_other name metrics && are_apart metrics

module _ (G : Registry) where
  -- None of the metrics is registered.
  unfoldable pub are_free : List (Text × Text) → G.State → Bool
  are_free [] s = true
  are_free ((name, help) ∷ metrics) s = not (G.is_taken s name) && are_free metrics s

module _ (G : Registry) (L : IsLawfulRegistry G) where
  register_or_panic_ok :
      (name help : Text) (s : G.State)
      → G.is_taken s name ≡ false
      → (register_or_panic G name help s).0 ≡ ok tt
  unfolding register_or_panic
  register_or_panic_ok name help s free = ground (arith, L.register_free name help s free)

  register_or_panic_taken :
      (name help : Text) (s : G.State)
      → G.is_taken s name ≡ true
      → (register_or_panic G name help s).0 ≡ err panicked
  unfolding register_or_panic
  register_or_panic_taken name help s taken = ground (arith, L.register_taken name help s taken)

  is_taken-register_or_panic :
      (name help : Text) (s : G.State) (other : Text)
      → G.is_taken s name ≡ false
      → G.is_taken (register_or_panic G name help s).1 other
        ≡ (text_eq name other || G.is_taken s other)
  unfolding register_or_panic
  is_taken-register_or_panic name help s other free =
      ground (arith, L.register_free name help s free, L.is_taken-register name help s other free)

  are_free-register :
      (name help : Text) (metrics : List (Text × Text)) (s : G.State)
      → G.is_taken s name ≡ false
      → is_other name metrics ≡ true
      → are_free G metrics s ≡ true
      → are_free G metrics (register_or_panic G name help s).1 ≡ true
  unfolding are_free is_other
  are_free-register name help [] s free other fr = refl
  are_free-register name help ((n, h) ∷ metrics) s free other fr = ground (
    arith,
    is_taken-register_or_panic name help s n free,
    text_eq_iff name n,
    text_eq_iff n name,
    are_free-register name help metrics s free,
  )

  register_all_ok :
      (metrics : List (Text × Text)) (s : G.State)
      → are_apart metrics ≡ true
      → are_free G metrics s ≡ true
      → (register_all G metrics s).0 ≡ ok tt
  unfolding register_all are_apart are_free
  register_all_ok [] s apart free = refl
  register_all_ok ((name, help) ∷ metrics) s apart free = ground (
    arith,
    register_or_panic_ok name help s,
    are_free-register name help metrics s,
    register_all_ok metrics (register_or_panic G name help s).1,
  )

  taken_still :
      (metrics : List (Text × Text)) (s : G.State) (name : Text)
      → are_apart metrics ≡ true
      → are_free G metrics s ≡ true
      → G.is_taken s name ≡ true
      → G.is_taken (register_all G metrics s).1 name ≡ true
  unfolding register_all are_apart are_free
  taken_still [] s name apart free taken = taken
  taken_still ((n, help) ∷ metrics) s name apart free taken = ground (
    arith,
    register_or_panic_ok n help s,
    is_taken-register_or_panic n help s name,
    are_free-register n help metrics s,
    taken_still metrics (register_or_panic G n help s).1 name,
  )

  apart_now : are_apart all_metrics ≡ true
  unfolding are_apart list_eq
  apart_now = refl

  first_taken :
      (name help : Text) (metrics : List (Text × Text)) (s : G.State)
      → are_apart ((name, help) ∷ metrics) ≡ true
      → are_free G ((name, help) ∷ metrics) s ≡ true
      → G.is_taken (register_all G ((name, help) ∷ metrics) s).1 name ≡ true
  unfolding register_all are_apart are_free
  first_taken name help metrics s apart free = ground (
    arith,
    register_or_panic_ok name help s,
    is_taken-register_or_panic name help s name,
    text_eq_iff name name,
    are_free-register name help metrics s,
    taken_still metrics (register_or_panic G name help s).1 name,
  )

  register_all_taken :
      (name help : Text) (metrics : List (Text × Text)) (s : G.State)
      → G.is_taken s name ≡ true
      → (register_all G ((name, help) ∷ metrics) s).0 ≡ err panicked
  unfolding register_all
  register_all_taken name help metrics s taken =
      ground (arith, register_or_panic_taken name help s taken)

  pub registered_metrics_ok :
      (n : ℕ) (s : G.State)
      → are_free G all_metrics s ≡ true
      → (registered_metrics G n s).0 ≡ ok (new_metrics n)
  unfolding registered_metrics
  registered_metrics_ok n s free = ground (arith, register_all_ok all_metrics s apart_now free)

  registered_metrics_taken :
      (n : ℕ) (s : G.State)
      → G.is_taken s (codes "cache_lookup_hits") ≡ true
      → (registered_metrics G n s).0 ≡ err panicked
  unfolding registered_metrics
  registered_metrics_taken n s taken =
      let first : (register_all G all_metrics s).0 ≡ err panicked =
        register_all_taken (codes "cache_lookup_hits") (codes "Cache lookup hits") _ s taken in
      ground arith

  registered_metrics_leaves :
      (n : ℕ) (s : G.State)
      → are_free G all_metrics s ≡ true
      → G.is_taken (registered_metrics G n s).1 (codes "cache_lookup_hits") ≡ true
  unfolding registered_metrics
  registered_metrics_leaves n s free =
      let first : G.is_taken (register_all G all_metrics s).1 (codes "cache_lookup_hits") ≡ true =
        first_taken (codes "cache_lookup_hits") (codes "Cache lookup hits") _ s apart_now free in
      ground (arith, register_all_ok all_metrics s apart_now free)

  -- Where none of the eight names is registered yet, the metrics can be made, and then they cannot
  -- be made again in this process: the second attempt panics.
  pub registered_metrics_once :
      (n k : ℕ) (s : G.State)
      → are_free G all_metrics s ≡ true
      → ((registered_metrics G n s).0 ≡ ok (new_metrics n))
        × ((registered_metrics G k (registered_metrics G n s).1).0 ≡ err panicked)
  registered_metrics_once n k s free = (
    registered_metrics_ok n s free,
    registered_metrics_taken k _ (registered_metrics_leaves n s free),
  )
