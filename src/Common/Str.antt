-- ===== src/Common/Str.antt =====
-- The operations of Rust's `str` that the program uses, on lists of code points. Where the source
-- slices at an index that `find` gave, the two parts are computed together.
pub mod Number
pub mod Search
pub mod Split
use Prim.Native.Nat.{ℕ, zero, suc, ◌+◌, ◌-◌, ◌*◌}
use mathlib.Core.Path.{◌≡◌, refl}
use mathlib.Core.Bool.{Bool, true, false, ◌&&◌, ◌||◌}
use mathlib.Core.Option.{Option, none, some}
use mathlib.Core.List.{List, [], ◌∷◌, ◌++◌, map, reverse}
use edge_cdn_store.Common.Tests.{ltb, leb, ◌==◌, if◌then◌else◌}
use edge_cdn_store.Common.Text.{Text, text_eq}

-- `char::is_whitespace`: the code points with the property White_Space.
abbrev pub is_whitespace : ℕ → Bool
is_whitespace c =
    (leb 9 c && leb c 13)
    || c == 32
    || c == 0x85
    || c == 0xA0
    || c == 0x1680
    || (leb 0x2000 c && leb c 0x200A)
    || c == 0x2028
    || c == 0x2029
    || c == 0x202F
    || c == 0x205F
    || c == 0x3000

unfoldable pub trim_start_by : (ℕ → Bool) → Text → Text
trim_start_by p [] = []
trim_start_by p (c ∷ s) = let rest = trim_start_by p s in if p c then rest else c ∷ s

unfoldable pub trim_end_by : (ℕ → Bool) → Text → Text
unfolding trim_start_by
trim_end_by p s = reverse (trim_start_by p (reverse s))

unfoldable pub trim : Text → Text
unfolding trim_end_by
trim s = trim_end_by is_whitespace (trim_start_by is_whitespace s)

unfoldable pub contains_char : ℕ → Text → Bool
contains_char x [] = false
contains_char x (c ∷ s) = c == x || contains_char x s

abbrev pub cons_before : ℕ → Option (Text × Text) → Option (Text × Text)
cons_before c none = none
cons_before c (some (before, after)) = some (c ∷ before, after)

-- The text before and after the first occurrence of a character.
unfoldable pub split_first : ℕ → Text → Option (Text × Text)
split_first x [] = none
split_first x (c ∷ s) =
    let rest = cons_before c (split_first x s) in if c == x then some ([], s) else rest

abbrev pub lower : ℕ → ℕ
lower c = if leb 65 c && leb c 90 then c + 32 else c

unfoldable pub to_ascii_lowercase : Text → Text
to_ascii_lowercase = map lower

unfoldable pub eq_ignore_ascii_case : Text → Text → Bool
unfolding to_ascii_lowercase text_eq
eq_ignore_ascii_case s t = text_eq (to_ascii_lowercase s) (to_ascii_lowercase t)

unfoldable pub starts_with : Text → Text → Bool
starts_with s [] = true
starts_with [] (c ∷ p) = false
starts_with (d ∷ s) (c ∷ p) = d == c && starts_with s p

-- `contains` for a text.
unfoldable pub contains_text : Text → Text → Bool
unfolding starts_with
contains_text [] p = starts_with [] p
contains_text (c ∷ s) p = starts_with (c ∷ s) p || contains_text s p

-- `from_str` of an unsigned type with this greatest value: an optional `+`, then digits, of which
-- there is at least one; the sum is checked at each digit.
abbrev is_digit : ℕ → Bool
is_digit c = leb 48 c && leb c 57

parse_digits : ℕ → ℕ → Text → Option ℕ
parse_digits limit acc [] = some acc
parse_digits limit acc (c ∷ s) =
    let next = acc * 10 + (c - 48) in
    let rest = parse_digits limit next s in if is_digit c && leb next limit then rest else none

parse_some : ℕ → Text → Option ℕ
parse_some limit [] = none
parse_some limit (c ∷ s) = parse_digits limit 0 (c ∷ s)

unfoldable pub parse_unsigned : ℕ → Text → Option ℕ
unfolding parse_some parse_digits
parse_unsigned limit [] = none
parse_unsigned limit (c ∷ s) = if c == b'+' then parse_some limit s else parse_some limit (c ∷ s)

unfoldable pub parse_u16 : Text → Option ℕ
unfolding parse_unsigned
parse_u16 = parse_unsigned 65535
