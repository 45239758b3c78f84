-- ===== src/Common/Str/Search.antt =====
-- What a text that is found in another one means.
use edge_cdn_store.Common.{◌≡◌, refl, ap, true, Bool-cases, [], ◌∷◌, ◌++◌, arith, inl, inr}
use edge_cdn_store.Common.Text.{Text}
use edge_cdn_store.Common.Str.{starts_with, contains_text}

starts_with-append : (s p : Text) → starts_with s p ≡ true → (after : Text) × (s ≡ p ++ after)
unfolding starts_with
starts_with-append s [] e = (s, refl)
starts_with-append [] (c ∷ p) e = absurd (cc e)
starts_with-append (d ∷ s) (c ∷ p) e =
    let (after, same) = starts_with-append s p (ground (arith, e)) in
    (after, ground (arith, e, same))

append-starts_with : (p after : Text) → starts_with (p ++ after) p ≡ true
unfolding starts_with
append-starts_with [] after = refl
append-starts_with (c ∷ p) after = ground (arith, append-starts_with p after)

-- Somewhere in the first text stands the second one.
pub contains_text-some :
    (s p : Text)
    → contains_text s p ≡ true
    → (before : Text) × (after : Text) × (s ≡ before ++ (p ++ after))
unfolding contains_text
contains_text-some [] p e = let (after, same) = starts_with-append [] p e in ([], after, same)
contains_text-some (c ∷ s) p e = elim (Bool-cases (starts_with (c ∷ s) p)) [
  | inl here ↦ let (after, same) = starts_with-append (c ∷ s) p here in ([], after, same)
  | inr other ↦
      let (before, after, same) = contains_text-some s p (ground (arith, e, other)) in
      (c ∷ before, after, ap (λ t. c ∷ t) same)
]

pub contains_text-append : (before p after : Text) → contains_text (before ++ (p ++ after)) p ≡ true
unfolding contains_text
contains_text-append [] [] [] = append-starts_with [] []
contains_text-append [] [] (c ∷ after) = ground (arith, append-starts_with [] (c ∷ after))
contains_text-append [] (c ∷ p) after = ground (arith, append-starts_with (c ∷ p) after)
contains_text-append (c ∷ before) p after = ground (arith, contains_text-append before p after)
