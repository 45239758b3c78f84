-- ===== src/Common/Str/Number.antt =====
-- Reading a number back that was printed.
use edge_cdn_store.Common.{
  ℕ, sym, zero, suc, ◌+◌, ◌-◌, ◌*◌, ◌/◌, ◌%◌, ◌≤◌, ◌<◌, ◌≡◌, ◌≢◌, refl, ◌∙◌, ap, [], ◌∷◌, ◌++◌,
  some, arith, ltb, Bool-cases, inl, inr,
}
use edge_cdn_store.Common.Text.{Text, decimal_from, decimal}
use edge_cdn_store.Common.Str.{parse_digits, parse_unsigned, parse_u16}

-- A value that is read is within the type's range.
parse_digits-le :
    (limit acc : ℕ) (s : Text) (n : ℕ) → acc ≤ limit → parse_digits limit acc s ≡ some n → n ≤ limit
unfolding parse_digits
parse_digits-le limit acc [] n h e = ground arith
parse_digits-le limit acc (c ∷ s) n h e =
    ground (arith, parse_digits-le limit (acc * 10 + (c - 48)) s n)

pub parse_unsigned-le : (limit : ℕ) (s : Text) (n : ℕ) → parse_unsigned limit s ≡ some n → n ≤ limit
unfolding parse_unsigned
parse_unsigned-le limit [] n e = cc
parse_unsigned-le limit (c ∷ []) n e = ground (arith, parse_digits-le limit 0 (c ∷ []) n)
parse_unsigned-le limit (c ∷ d ∷ s) n e =
    ground (arith, parse_digits-le limit 0 (c ∷ d ∷ s) n, parse_digits-le limit 0 (d ∷ s) n)

-- Digits that end a text are read after those before them.
parse_digits-append :
    (limit acc : ℕ) (s : Text) (c : ℕ) (n : ℕ)
    → parse_digits limit acc s ≡ some n
    → c < 10
    → n * 10 + c ≤ limit
    → parse_digits limit acc (s ++ (48 + c) ∷ []) ≡ some (n * 10 + c)
unfolding parse_digits
parse_digits-append limit acc [] c n e d h = ground arith
parse_digits-append limit acc (x ∷ s) c n e d h =
    ground (arith, parse_digits-append limit (acc * 10 + (x - 48)) s c n)

parse_digits-decimal_from :
    (fuel limit n : ℕ) → n < fuel → n ≤ limit → parse_digits limit 0 (decimal_from fuel n) ≡ some n
unfolding decimal_from
parse_digits-decimal_from zero limit n f h = absurd (omega arith)
parse_digits-decimal_from (suc fuel) limit n f h = elim (Bool-cases (ltb n 10)) [
  | inl small ↦ rw small (unfold parse_digits in ground arith)
  | inr large ↦
      let q : ℕ = n / 10 in
      let ih = parse_digits-decimal_from fuel limit q (ground arith) (ground arith) in
      let e : q * 10 + n % 10 ≡ n = omega arith in
      let step =
        parse_digits-append limit 0 (decimal_from fuel q) (n % 10) q ih (omega arith)
          (omega arith) in
      rw large (step ∙ ap some e)
]

snoc-ne-nil : (s : Text) (c : ℕ) → s ++ c ∷ [] ≢ []
snoc-ne-nil [] c e = cc
snoc-ne-nil (x ∷ s) c e = cc

decimal-ne-nil : (n : ℕ) → decimal n ≢ []
unfolding decimal decimal_from
decimal-ne-nil n e = elim (Bool-cases (ltb n 10)) [
  | inl small ↦ ground arith
  | inr large ↦ absurd (snoc-ne-nil (decimal_from n (n / 10)) (48 + n % 10) (ground arith))
]

-- The text is no sign, so that it is read as digits.
parse_unsigned_of_digits :
    (limit : ℕ) (s : Text) (n : ℕ)
    → s ≢ []
    → parse_digits limit 0 s ≡ some n
    → parse_unsigned limit s ≡ some n
unfolding parse_unsigned
parse_unsigned_of_digits limit [] n h e = absurd (h refl)
parse_unsigned_of_digits limit (c ∷ s) n h e = ground arith

-- A number in range that is printed is read back.
pub parse_u16-decimal : (n : ℕ) → n ≤ 65535 → parse_u16 (decimal n) ≡ some n
unfolding parse_u16 decimal
parse_u16-decimal n h =
    parse_unsigned_of_digits 65535 (decimal n) n (decimal-ne-nil n)
      (parse_digits-decimal_from (suc n) 65535 n (omega arith) h)

pub parse_u16-le : (s : Text) (n : ℕ) → parse_u16 s ≡ some n → n ≤ 65535
unfolding parse_u16
parse_u16-le s n e = parse_unsigned-le 65535 s n e

-- Two numbers that are printed alike are the same.
pub decimal_injective : (m n : ℕ) → decimal m ≡ decimal n → m ≡ n
unfolding decimal
decimal_injective m n e =
    let back = parse_digits-decimal_from (suc m) (m + n) m (omega arith) (omega arith) in
    let back' = parse_digits-decimal_from (suc n) (m + n) n (omega arith) (omega arith) in
    let same : some m ≡ some n = sym back ∙ ap (parse_digits (m + n) 0) e ∙ back' in cc same
