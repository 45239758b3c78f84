-- ===== src/Host/RoundTrip.antt =====
-- A host and a port that are written as a Host header are read back.
use edge_cdn_store.Common.{
  ℕ, ◌+◌, ◌≤◌, ◌<◌, ◌≡◌, ◌≢◌, refl, sym, ◌∙◌, ap, Bool, false, [], ◌∷◌, ◌++◌, some, ok, arith, ◌==◌,
  append_assoc,
}
use edge_cdn_store.Common.Text.{Text, decimal}
use edge_cdn_store.Common.Str.{is_whitespace, trim, trim_end_by, contains_char}
use edge_cdn_store.Common.Str.Number.{parse_u16-decimal}
use edge_cdn_store.Common.Str.Split.{
  contains_char-append, split_first-append, trim_start_by_cons, trim_end_by_snoc, decimal-snoc,
  contains_char-decimal,
}
use edge_cdn_store.Host.{parse_name, parse_trimmed, parse_host_authority}

abbrev pub StartsPlain : Text → Type 0
StartsPlain [] = ⊥
StartsPlain (c ∷ s) = (is_whitespace c ≡ false) × (c ≢ b'[')

-- A text that ends in a printed number is not trimmed at its end.
trim_end_by-decimal :
    (p : ℕ → Bool) (s t : Text) (n : ℕ)
    → ((d : ℕ) → d < 10 → p (48 + d) ≡ false)
    → s ≡ t ++ decimal n
    → trim_end_by p s ≡ s
trim_end_by-decimal p s t n digit e =
    let (u, d, small, digits) = decimal-snoc n in
    let whole : s ≡ (t ++ u) ++ (48 + d) ∷ [] =
      e ∙ ap (λ r. t ++ r) digits ∙ sym (append_assoc t u ((48 + d) ∷ [])) in
    ap (trim_end_by p) whole ∙ trim_end_by_snoc p (t ++ u) (48 + d) (digit d small) ∙ sym whole

trim_same :
    (c : ℕ) (s t : Text) (n : ℕ)
    → is_whitespace c ≡ false
    → c ∷ s ≡ t ++ decimal n
    → trim (c ∷ s) ≡ c ∷ s
unfolding trim
trim_same c s t n h e =
    ap (trim_end_by is_whitespace) (trim_start_by_cons is_whitespace c s h)
    ∙ trim_end_by-decimal is_whitespace (c ∷ s) t n (λ d small. ground arith) e

trimmed_same :
    (c : ℕ) (s t : Text) (n : ℕ)
    → is_whitespace c ≡ false
    → c ∷ s ≡ t ++ decimal n
    → parse_host_authority (c ∷ s) ≡ parse_trimmed (c ∷ s)
unfolding parse_host_authority
trimmed_same c s t n h e =
    let slash : ℕ → Bool = λ x. x == b'/' in
    ap parse_trimmed (
      ap (trim_end_by slash) (trim_same c s t n h e)
      ∙ trim_end_by-decimal slash (c ∷ s) t n (λ d small. ground arith) e)

-- A host name or IPv4 address.
pub record IsName (host : Text) : Type 0 where
  pub begins : StartsPlain host
  pub no_slash : contains_char b'/' host ≡ false
  pub no_space : contains_char b' ' host ≡ false
  pub no_colon : contains_char b':' host ≡ false

parse_name-decimal :
    (host : Text) (n : ℕ)
    → IsName host
    → n ≤ 65535
    → parse_name (host ++ b':' ∷ decimal n) ≡ ok (host, some n)
unfolding parse_name contains_char
parse_name-decimal host n h small =
    let rest = b':' ∷ decimal n in
    ground (
      arith,
      contains_char-append b'/' host rest,
      contains_char-append b' ' host rest,
      contains_char-decimal n b'/' (omega arith),
      contains_char-decimal n b' ' (omega arith),
      split_first-append b':' host (decimal n) h.no_colon,
      parse_u16-decimal n small,
    )

plain_name : (c : ℕ) (s : Text) → c ≢ b'[' → parse_trimmed (c ∷ s) ≡ parse_name (c ∷ s)
unfolding parse_trimmed
plain_name c s h = ground arith

-- `host:port` is read as the host and the port.
pub parse_host_authority-name :
    (host : Text) (n : ℕ)
    → IsName host
    → n ≤ 65535
    → parse_host_authority (host ++ b':' ∷ decimal n) ≡ ok (host, some n)
parse_host_authority-name [] n h small = absurd (h.begins)
parse_host_authority-name (c ∷ host) n h small =
    trimmed_same c (host ++ b':' ∷ decimal n) ((c ∷ host) ++ b':' ∷ []) n h.begins.0
      (sym (append_assoc (c ∷ host) (b':' ∷ []) (decimal n)))
    ∙ plain_name c (host ++ b':' ∷ decimal n) h.begins.1
    ∙ parse_name-decimal (c ∷ host) n h small

-- `[host]:port` is read as the host without its brackets and the port.
pub parse_host_authority-bracketed :
    (host : Text) (n : ℕ)
    → contains_char b']' host ≡ false
    → n ≤ 65535
    → parse_host_authority (b'[' ∷ host ++ b']' ∷ b':' ∷ decimal n) ≡ ok (host, some n)
unfolding parse_trimmed
parse_host_authority-bracketed host n h small =
    trimmed_same b'[' (host ++ b']' ∷ b':' ∷ decimal n) (b'[' ∷ host ++ b']' ∷ b':' ∷ []) n refl
      (ap (λ r. b'[' ∷ r) (sym (append_assoc host (b']' ∷ b':' ∷ []) (decimal n))))
    ∙ ground (arith, split_first-append b']' host (b':' ∷ decimal n) h, parse_u16-decimal n small)

pub trim-name :
    (host : Text) (n : ℕ) → IsName host → trim (host ++ b':' ∷ decimal n) ≡ host ++ b':' ∷ decimal n
trim-name [] n h = absurd (h.begins)
trim-name (c ∷ host) n h =
    trim_same c (host ++ b':' ∷ decimal n) ((c ∷ host) ++ b':' ∷ []) n h.begins.0
      (sym (append_assoc (c ∷ host) (b':' ∷ []) (decimal n)))
