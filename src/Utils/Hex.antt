-- ===== src/Utils/Hex.antt =====
-- `hex2str` writes two digits for a byte, from which the bytes can be read back.
use edge_cdn_store.Common.{
  ℕ, ◌+◌, ◌-◌, ◌*◌, ◌/◌, ◌%◌, ◌<◌, ◌≡◌, refl, zero, suc, List, [], ◌∷◌, length, arith, ltb,
  if◌then◌else◌,
}
use mathlib.Core.Path.{ap₂}
use edge_cdn_store.Common.Text.{Text}
use edge_cdn_store.Utils.{hex_chars, char_at, hex2str}

abbrev digit_value : ℕ → ℕ
digit_value c = if ltb c 65 then c - 48 else c - 55

unfoldable pub str2hex : Text → List ℕ
str2hex (a ∷ b ∷ s) = (digit_value a * 16 + digit_value b) ∷ str2hex s
str2hex _ = []

abbrev pub AreBytes : List ℕ → Type 0
AreBytes [] = Unit
AreBytes (b ∷ bs) = (b < 256) × AreBytes bs

-- The characters of a table have the values from a number upwards.
abbrev CountFrom : ℕ → Text → Type 0
CountFrom n [] = Unit
CountFrom n (c ∷ cs) = (digit_value c ≡ n) × CountFrom (n + 1) cs

char_at-CountFrom :
    (n : ℕ) (cs : Text) (i : ℕ)
    → CountFrom n cs
    → i < length cs
    → digit_value (char_at cs i) ≡ n + i
char_at-CountFrom n [] i h lt = absurd (omega arith)
char_at-CountFrom n (c ∷ cs) zero h lt = omega (arith, h.0)
char_at-CountFrom n (c ∷ cs) (suc i) h lt =
    omega (arith, char_at-CountFrom (n + 1) cs i h.1 (omega arith))

hex_chars-CountFrom : CountFrom 0 hex_chars
hex_chars-CountFrom = omega arith

digit_back : (x : ℕ) → x < 16 → digit_value (char_at hex_chars x) ≡ x
digit_back x h =
    omega (arith, char_at-CountFrom 0 hex_chars x hex_chars-CountFrom (omega (arith, h)))

-- The text of bytes has two characters for each, and reading its digits gives the bytes back.
pub hex2str_lem :
    (bs : List ℕ)
    → AreBytes bs
    → (str2hex (hex2str bs) ≡ bs) × (length (hex2str bs) ≡ 2 * length bs)
unfolding hex2str str2hex
hex2str_lem [] h = (refl, refl)
hex2str_lem (b ∷ bs) h =
    let (back, size) = hex2str_lem bs h.1 in
    let hi = digit_back (b / 16) (omega (arith, h.0)) in
    let lo = digit_back (b % 16) (omega arith) in
    (ap₂ (λ x xs. x ∷ xs) (rw (hi, lo) (omega arith)) back, omega (arith, size))
