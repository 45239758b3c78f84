-- ===== src/Common/State.antt =====
-- Pingora's errors, and stateful code that fails: an early return keeps the state reached so far.
use edge_cdn_store.Common.Tests.{Result, ok, err}
use mathlib.Core.Option.{Option, none, some}
use mathlib.Core.Path.{◌≡◌}
use Prim.Native.Nat.{ℕ}

-- The `ErrorType`s that the code creates; `foreign` is any error that a library returned.
pub data ErrorType : Type 0 where
  internal_error connect_error : ErrorType
  http_status : ℕ → ErrorType
  foreign : ℕ → ErrorType

-- A call ends with an error value (its message is not modelled) or by a panic.
pub data Failure : Type 0 where
  error : ErrorType → Failure
  panicked : Failure

abbrev pub M {ℓ κ} : Type ℓ → Type κ → Type (ℓ ⊔ κ)
M S A = S → Result Failure A × S

abbrev pub pure {ℓ κ} : {S : Type ℓ} {A : Type κ} → A → M S A
pure a s = (ok a, s)

abbrev pub then_on {ℓ κ λ'} :
    {S : Type ℓ} {A : Type κ} {B : Type λ'} → (A → M S B) → Result Failure A → M S B
then_on f (ok a) s = f a s
then_on f (err e) s = (err e, s)

infixl 5 ◌>>=◌ ◌>>◌
abbrev pub ◌>>=◌ {ℓ κ λ'} : {S : Type ℓ} {A : Type κ} {B : Type λ'} → M S A → (A → M S B) → M S B
◌>>=◌ m f s = then_on f (m s).0 (m s).1

abbrev pub ◌>>◌ {ℓ κ} : {S : Type ℓ} {B : Type κ} → M S (Unit {0}) → M S B → M S B
m >> k = m >>= λ _. k

-- `trace_fn_exit_with_err`; the lines that it traces are those of `trace_fn_exit` (Logging).
abbrev pub trace_fn_exit_with_err {ℓ} : {E : Type ℓ} → Option ErrorType → Result Failure E
trace_fn_exit_with_err none = err (error internal_error)
trace_fn_exit_with_err (some t) = err (error t)

pub pair_path : {A B : Type 0} {p : A × B} (q : A × B) → p.0 ≡ q.0 → p.1 ≡ q.1 → p ≡ q
pair_path q e e' i = (e i, e' i)
