-- ===== src/Inspector/Stop.antt =====
-- How the inspector is stopped (src/inspector/mod.rs): the handle, and the service that waits for
-- the shutdown of the server.
use edge_cdn_store.Common.{ℕ, zero, suc, ◌≡◌, refl, List, [], ◌∷◌, ◌++◌, Option, none, some}

-- The sender of the shutdown signal, and the thread, until they are taken.
pub record InspectorHandle : Type 0 where
  pub shutdown_tx : Option (Unit {0})
  pub thread : Option (Unit {0})

pub data Effect : Type 0 where
  sent_shutdown joined_thread : Effect

-- `InspectorHandle::new`
abbrev pub new_handle : InspectorHandle
new_handle = record { shutdown_tx = some tt; thread = some tt }

abbrev taken : Option (Unit {0}) → Effect → List Effect
taken none e = []
taken (some x) e = e ∷ []

-- `StopInspectorOnShutdown::start`, once the shutdown was signalled.
unfoldable pub start : InspectorHandle → List Effect × InspectorHandle
start h = (
  taken h.shutdown_tx sent_shutdown ++ taken h.thread joined_thread,
  record { shutdown_tx = none; thread = none },
)

unfoldable pub start_times : ℕ → InspectorHandle → List Effect
start_times zero h = []
start_times (suc n) h = (start h).0 ++ start_times n (start h).1

start_times_stopped : (n : ℕ) → start_times n (record { shutdown_tx = none; thread = none }) ≡ []
unfolding start_times start
start_times_stopped zero = refl
start_times_stopped (suc n) = start_times_stopped n

-- However often the service is started, the signal is sent once, and then the thread is joined once.
pub start_times-new : (n : ℕ) → start_times (suc n) new_handle ≡ sent_shutdown ∷ joined_thread ∷ []
unfolding start_times start
start_times-new n = rw (start_times_stopped n)
