-- ===== src/Common/Str/Split.antt =====
-- Laws of splitting, searching and trimming.
use mathlib.Core.List.{reverse, reverse-append, reverse-reverse}
use edge_cdn_store.Common.{
  ℕ, zero, suc, ◌+◌, ◌/◌, ◌%◌, ◌<◌, ◌≡◌, refl, sym, ◌∙◌, ap, Bool, false, ◌||◌, [], ◌∷◌, ◌++◌, none,
  some, arith, ltb, Bool-cases, Option-cases, inl, inr,
}
use edge_cdn_store.Common.Text.{Text, decimal_from, decimal}
use edge_cdn_store.Common.Str.{trim_start_by, trim_end_by, contains_char, split_first}

module _ (x : ℕ) where
  pub contains_char-append :
      (s t : Text) → contains_char x (s ++ t) ≡ (contains_char x s || contains_char x t)
  unfolding contains_char
  contains_char-append [] t = refl
  contains_char-append (c ∷ s) t = ground (arith, contains_char-append s t)

  -- The parts of a split: the first one does not hold the character.
  pub split_first-some :
      (s a b : Text)
      → split_first x s ≡ some (a, b)
      → (s ≡ a ++ x ∷ b) × (contains_char x a ≡ false)
  unfolding split_first contains_char
  split_first-some [] a b e = cc
  split_first-some (c ∷ s) a b e = elim (Option-cases (split_first x s)) [
    | inl missed ↦ ground arith
    | inr ((a', b'), found) ↦ ground (arith, split_first-some s a' b' found)
  ]

  pub split_first-none : (s : Text) → split_first x s ≡ none → contains_char x s ≡ false
  unfolding split_first contains_char
  split_first-none [] e = refl
  split_first-none (c ∷ s) e = ground (arith, split_first-none s)

  pub split_first-append :
      (a b : Text) → contains_char x a ≡ false → split_first x (a ++ x ∷ b) ≡ some (a, b)
  unfolding split_first contains_char
  split_first-append [] b h = ground arith
  split_first-append (c ∷ a) b h = ground (arith, split_first-append a b)

pub trim_start_by_cons :
    (p : ℕ → Bool) (c : ℕ) (s : Text) → p c ≡ false → trim_start_by p (c ∷ s) ≡ c ∷ s
unfolding trim_start_by
trim_start_by_cons p c s h = rw h

pub trim_end_by_snoc :
    (p : ℕ → Bool) (s : Text) (c : ℕ) → p c ≡ false → trim_end_by p (s ++ c ∷ []) ≡ s ++ c ∷ []
unfolding trim_end_by
trim_end_by_snoc p s c h =
    rw (reverse-append, trim_start_by_cons p c (reverse s) h)
      (ap reverse (sym (reverse-append s (c ∷ []))) ∙ reverse-reverse (s ++ c ∷ []))

-- A printed number ends in a digit, and holds only digits.
decimal_from-snoc :
    (fuel n : ℕ)
    → n < fuel
    → (s : Text) × (d : ℕ) × (d < 10) × (decimal_from fuel n ≡ s ++ (48 + d) ∷ [])
unfolding decimal_from
decimal_from-snoc zero n h = absurd (omega arith)
decimal_from-snoc (suc fuel) n h = elim (Bool-cases (ltb n 10)) [
  | inl small ↦ ([], n, ground arith, rw small)
  | inr large ↦ (decimal_from fuel (n / 10), n % 10, omega arith, rw large)
]

pub decimal-snoc : (n : ℕ) → (s : Text) × (d : ℕ) × (d < 10) × (decimal n ≡ s ++ (48 + d) ∷ [])
unfolding decimal
decimal-snoc n = decimal_from-snoc (suc n) n (omega arith)

contains_char-decimal_from : (fuel n x : ℕ) → x < 48 → contains_char x (decimal_from fuel n) ≡ false
unfolding decimal_from contains_char
contains_char-decimal_from zero n x h = refl
contains_char-decimal_from (suc fuel) n x h = ground (
  arith,
  contains_char-decimal_from fuel (n / 10) x,
  contains_char-append x (decimal_from fuel (n / 10)) ((48 + n % 10) ∷ []),
)

pub contains_char-decimal : (n x : ℕ) → x < 48 → contains_char x (decimal n) ≡ false
unfolding decimal
contains_char-decimal n x h = contains_char-decimal_from (suc n) n x h
