-- ===== src/Host/Parts.antt =====
-- What an accepted Host header was made of.
use mathlib.Core.List.{append-nil}
use edge_cdn_store.Common.{
  ℕ, ◌≡◌, ◌≢◌, ◌⊎◌, inl, inr, refl, false, [], ◌∷◌, ◌++◌, Option, none, ok, arith, subst, sym, ◌∙◌,
  ap, Option-cases, Bool-cases, ◌==◌, ◌||◌,
}
use edge_cdn_store.Common.Text.{Text}
use edge_cdn_store.Common.Str.{trim, trim_end_by, contains_char, split_first, parse_u16}
use edge_cdn_store.Common.Str.Split.{split_first-some, split_first-none}
use edge_cdn_store.Host.{port_after, bracketed, parse_name, parse_trimmed, parse_host_authority}
use edge_cdn_store.Host.Bounds.{IsPort, parse_host_authority_ok}

-- The port that a text after the host gives: behind a colon a number of 16 bits, and otherwise none.
pub data PortOf (rest : Text) (port : Option ℕ) : Type 0 where
  behind_colon : (p : Text) → rest ≡ b':' ∷ p → port ≡ parse_u16 p → PortOf rest port
  no_colon : ((p : Text) → rest ≢ b':' ∷ p) → port ≡ none → PortOf rest port

-- The parts of a header, without white space around it and slashes at its end.
pub data Parts (s host : Text) (port : Option ℕ) : Type 0 where
  name :
      (rest : Text)
      → ((p : Text) → s ≢ b'[' ∷ p)
      → s ≡ host ++ rest
      → contains_char b'/' s ≡ false
      → contains_char b' ' s ≡ false
      → contains_char b':' host ≡ false
      → (rest ≡ []) ⊎ ((p : Text) × (rest ≡ b':' ∷ p))
      → PortOf rest port
      → Parts s host port
  in_brackets :
      (rest : Text)
      → s ≡ b'[' ∷ host ++ b']' ∷ rest
      → contains_char b']' host ≡ false
      → PortOf rest port
      → Parts s host port

port_after-PortOf : (rest : Text) → PortOf rest (port_after rest)
unfolding port_after
port_after-PortOf [] = no_colon (λ p e. cc e) refl
port_after-PortOf (c ∷ p) = elim (Bool-cases (c == b':')) [
  | inl colon ↦ behind_colon p (ground (arith, colon)) (rw colon refl)
  | inr other ↦ no_colon (λ q e. ground (arith, other, e)) (rw other refl)
]

bracketed-Parts :
    (s host : Text) (port : Option ℕ)
    → bracketed (split_first b']' s) ≡ ok (host, port)
    → Parts (b'[' ∷ s) host port
unfolding bracketed
bracketed-Parts s host port e = elim (Option-cases (split_first b']' s)) [
  | inl missed ↦ absurd (ground (arith, e, missed))
  | inr ((a, b), found) ↦
      let split = split_first-some b']' s a b found in
      let same : a ≡ host = ground (arith, e, found) in
      let gave : port_after b ≡ port = ground (arith, e, found) in
      in_brackets b (ground (arith, split, same)) (ground (arith, split, same))
        (subst (PortOf b) gave (port_after-PortOf b))
]

parse_name-Parts :
    (c : ℕ) (s host : Text) (port : Option ℕ)
    → (c == b'[') ≡ false
    → parse_name (c ∷ s) ≡ ok (host, port)
    → Parts (c ∷ s) host port
unfolding parse_name
parse_name-Parts c s host port plain e =
    let t = c ∷ s in
    elim (Bool-cases (contains_char b'/' t || contains_char b' ' t)) [
      | inl bad ↦ absurd (ground (arith, e, bad))
      | inr good ↦
          let unbracketed : (p : Text) → t ≢ b'[' ∷ p = λ p q. ground (arith, plain, q) in
          let no_slash : contains_char b'/' t ≡ false = ground (arith, good) in
          let no_space : contains_char b' ' t ≡ false = ground (arith, good) in
          elim (Option-cases (split_first b':' t)) [
            | inl missed ↦
                let same : t ≡ host = ground (arith, e, good, missed) in
                let gave : none ≡ port = ground (arith, e, good, missed) in
                name [] unbracketed (same ∙ sym (append-nil host)) no_slash no_space
                  (subst (λ h. contains_char b':' h ≡ false) same (split_first-none b':' t missed))
                  (inl refl) (no_colon (λ p q. cc q) (sym gave))
            | inr ((a, b), found) ↦
                let split = split_first-some b':' t a b found in
                let same : a ≡ host = ground (arith, e, good, found) in
                let gave : port ≡ parse_u16 b = ground (arith, e, good, found) in
                name (b':' ∷ b) unbracketed (split.0 ∙ ap (λ h. h ++ b':' ∷ b) same) no_slash
                  no_space (subst (λ h. contains_char b':' h ≡ false) same split.1) (inr (b, refl))
                  (behind_colon b refl gave)
          ]
    ]

parse_trimmed-Parts :
    (s host : Text) (port : Option ℕ) → parse_trimmed s ≡ ok (host, port) → Parts s host port
unfolding parse_trimmed
parse_trimmed-Parts [] host port e = absurd (cc e)
parse_trimmed-Parts (c ∷ s) host port e = elim (Bool-cases (c == b'[')) [
  | inl bracket ↦
      let same : c ≡ b'[' = ground (arith, bracket) in
      subst (λ d. Parts (d ∷ s) host port) (sym same)
        (bracketed-Parts s host port (rw bracket at e))
  | inr plain ↦ parse_name-Parts c s host port plain (rw plain at e)
]

-- An accepted Host header, without white space around it and slashes at its end, is made of the
-- host and what follows it. Outside brackets nothing in it is a slash or a space, the host has no
-- colon, and a colon or nothing follows the host. In brackets the host has no closing bracket. The
-- port is the 16-bit number behind the colon, or none; it is at most 65535.
pub parse_host_authority-Parts :
    (raw host : Text) (port : Option ℕ)
    → parse_host_authority raw ≡ ok (host, port)
    → Parts (trim_end_by (λ c. c == b'/') (trim raw)) host port × IsPort port
unfolding parse_host_authority
parse_host_authority-Parts raw host port e = (
  parse_trimmed-Parts (trim_end_by (λ c. c == b'/') (trim raw)) host port e,
  (parse_host_authority_ok raw host port e).1,
)
