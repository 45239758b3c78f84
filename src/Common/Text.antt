-- ===== src/Common/Text.antt =====
-- Text as the list of its code points, and the operations of Rust's `str` that the program uses.
use Prim.Native.Char.{code}
use Prim.Native.String.{String}
use Prim.Native.Nat.{ℕ, zero, suc, ◌+◌, ◌/◌, ◌%◌}
use mathlib.Core.List.{List, [], ◌∷◌, ◌++◌}
use mathlib.Core.Path.{◌≡◌, refl}
use mathlib.Core.Logic.{◌↔◌}
use mathlib.Core.Bool.{Bool, true, false, ◌&&◌}
use native.Mathlib.Omega.{arith}
use edge_cdn_store.Common.Tests.{ltb, ◌==◌, ==_iff, if◌then◌else◌}

abbrev pub Text : Type 0
Text = List ℕ

abbrev pub codes : String → Text
codes String.[] = []
codes (String.◌∷◌ c s) = code c ∷ codes s

-- `Display` of an unsigned integer; the fuel exceeds the number of digits.
unfoldable pub decimal_from : ℕ → ℕ → Text
decimal_from zero n = []
decimal_from (suc fuel) n =
    let rest = decimal_from fuel (n / 10) in
    if ltb n 10 then (48 + n) ∷ [] else rest ++ (48 + n % 10) ∷ []

unfoldable pub decimal : ℕ → Text
unfolding decimal_from
decimal n = decimal_from (suc n) n

-- `==` on slices.
module _ {ℓ} {A : Type ℓ} (eq : A → A → Bool) where
  unfoldable pub list_eq : List A → List A → Bool
  list_eq [] [] = true
  list_eq (x ∷ xs) (y ∷ ys) = eq x y && list_eq xs ys
  list_eq _ _ = false

  pub list_eq_iff :
      ((x y : A) → (eq x y ≡ true) ↔ (x ≡ y))
      → (xs ys : List A) → (list_eq xs ys ≡ true) ↔ (xs ≡ ys)
  unfolding list_eq
  list_eq_iff h [] [] = (λ _. refl, λ _. refl)
  list_eq_iff h [] (y ∷ ys) = (λ e. cc, λ e. cc)
  list_eq_iff h (x ∷ xs) [] = (λ e. cc, λ e. cc)
  list_eq_iff h (x ∷ xs) (y ∷ ys) = ground (arith, h x y, list_eq_iff h xs ys)

unfoldable pub text_eq : Text → Text → Bool
unfolding list_eq
text_eq = list_eq ◌==◌

pub text_eq_iff : (s t : Text) → (text_eq s t ≡ true) ↔ (s ≡ t)
unfolding text_eq
text_eq_iff = list_eq_iff ◌==◌ ==_iff
