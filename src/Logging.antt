-- ===== src/Logging.antt =====
-- Logging (src/logger.rs) and the panic hook of src/main.rs: the lines that are traced, the service
-- that sends them to a file, and what a panic appends to a file of its own.
use edge_cdn_store.Common.{
  Bool, true, false, List, [], ◌∷◌, ◌++◌, Option, none, some, Result, ok, err, if◌then◌else◌,
}
use edge_cdn_store.Common.Text.{Text, codes}
use edge_cdn_store.Common.State.{M, pure, ◌>>=◌, panicked}
use edge_cdn_store.Disk.Files.{IoError}

-- The methods of `Trace`, for the name that `struct_name` gives.
traced : Text → Text → Text → Text
traced arrow struct_name fn_name =
    arrow ++ (codes " " ++ (struct_name ++ (codes "::" ++ (fn_name ++ codes "()"))))

unfoldable pub fn_enter : Text → Text → Text
unfolding traced
fn_enter = traced (codes "--->")

unfoldable pub fn_enter_exit : Text → Text → Text
unfolding traced
fn_enter_exit = traced (codes "<-->")

unfoldable pub fn_exit : Text → Text → Text
unfolding traced
fn_exit = traced (codes "<---")

-- `trace_fn_exit`
unfoldable pub trace_fn_exit : Text → Text → Bool → List Text
trace_fn_exit fn_name err_msg trace_fn_enter =
    (if trace_fn_enter then (codes "---> " ++ fn_name) ∷ [] else [])
    ++ (codes "     " ++ err_msg) ∷ (codes "<--- " ++ fn_name) ∷ []

pub record BackgroundLogger : Type 0 where
  pub path : Text
  pub filter : Option Text

-- Files that are opened with create and append (std::fs), and the filters of tracing_subscriber:
-- one is made from directives, or is that of the environment, if there is one that can be read.
pub record LogOutput : Type 1 where
  pub State : Type 0
  pub File : Type 0
  pub open_log : Text → State → Result IoError File × State
  pub write_line : File → Text → State → Result IoError (Unit {0}) × State
  pub EnvFilter : Type 0
  pub new_filter : Text → EnvFilter
  pub default_env : Option EnvFilter

module _ (O : LogOutput) where
  -- The subscriber as it is configured.
  pub record Subscriber : Type 0 where
    pub env_filter : O.EnvFilter
    pub target : Bool
    pub ansi : Bool
    pub writer : O.File

  expect_log : Result IoError O.File → M O.State O.File
  expect_log (ok file) s = (ok file, s)
  expect_log (err e) s = (err panicked, s)

  unfoldable pub filter_of : Option Text → Option O.EnvFilter → O.EnvFilter
  filter_of (some directives) env = O.new_filter directives
  filter_of none (some f) = f
  filter_of none none = O.new_filter (codes "info")

  -- `BackgroundService::start` up to the subscriber that it installs; the service then waits.
  unfoldable pub start_logger : BackgroundLogger → M O.State Subscriber
  unfolding expect_log filter_of
  start_logger l = do
    file ← (λ s. expect_log (O.open_log l.path s).0 (O.open_log l.path s).1)
    pure (record {
      env_filter = filter_of l.filter O.default_env;
      target = true;
      ansi = false;
      writer = file;
    })

  append_panic : Text → Text → Result IoError O.File → O.State → O.State
  append_panic info backtrace (ok file) s =
      (O.write_line file (codes "Backtrace: " ++ backtrace)
        (O.write_line file (codes "PANIC: " ++ info) s).1).1
  append_panic info backtrace (err e) s = s

  -- The panic hook: a file that cannot be opened or written is passed over.
  unfoldable pub panic_hook : Text → Text → Text → O.State → O.State
  unfolding append_panic
  panic_hook path_to_panic_log info backtrace s =
      let (opened, s') = O.open_log path_to_panic_log s in append_panic info backtrace opened s'
