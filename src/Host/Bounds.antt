-- ===== src/Host/Bounds.antt =====
-- What a parsed Host header looks like, and how parsing fails.
use edge_cdn_store.Common.{
  ℕ, ◌≤◌, ◌≡◌, ◌⊎◌, inl, inr, false, [], ◌∷◌, Option, none, some, ok, err, arith, subst,
  Option-cases, Bool-cases, ◌==◌,
}
use edge_cdn_store.Common.Text.{Text}
use edge_cdn_store.Common.Str.{trim, trim_end_by, contains_char, split_first, parse_u16}
use edge_cdn_store.Common.Str.Number.{parse_u16-le}
use edge_cdn_store.Common.Str.Split.{split_first-some, split_first-none, contains_char-append}
use edge_cdn_store.Common.State.{ErrorType, http_status}
use edge_cdn_store.Host.{port_after, bracketed, parse_name, parse_trimmed, parse_host_authority}

-- A host name or IPv4 address, or the inside of brackets.
abbrev pub IsHost : Text → Type 0
IsHost host =
    ((contains_char b'/' host ≡ false)
      × (contains_char b' ' host ≡ false)
      × (contains_char b':' host ≡ false))
    ⊎ (contains_char b']' host ≡ false)

-- A port, if there is one, is a 16-bit number.
abbrev pub IsPort : Option ℕ → Type 0
IsPort none = Unit
IsPort (some p) = p ≤ 65535

parse_u16-IsPort : (s : Text) → IsPort (parse_u16 s)
parse_u16-IsPort s = elim (Option-cases (parse_u16 s)) [
  | inl missing ↦ rw missing tt
  | inr (p, found) ↦ rw found (parse_u16-le s p found)
]

-- A parse that succeeds gives a 16-bit port, if any, and a host free of separators.
parse_name_ok :
    (s host : Text) (port : Option ℕ) → parse_name s ≡ ok (host, port) → IsHost host × IsPort port
unfolding parse_name
parse_name_ok s host port e = elim (Option-cases (split_first b':' s)) [
  | inl missed ↦ (
    ground (arith, split_first-none b':' s),
    (let same : none ≡ port = ground arith in subst IsPort same tt),
  )
  | inr ((a, b), found) ↦
      let split = split_first-some b':' s a b found in
      (
        ground (
          arith,
          split,
          contains_char-append b'/' a (b':' ∷ b),
          contains_char-append b' ' a (b':' ∷ b),
        ),
        subst IsPort (ground arith) (parse_u16-IsPort b),
      )
]

port_after-IsPort : (s : Text) → IsPort (port_after s)
unfolding port_after
port_after-IsPort [] = tt
port_after-IsPort (c ∷ s) = elim (Bool-cases (c == b':')) [
  | inl colon ↦ rw colon (parse_u16-IsPort s)
  | inr other ↦ rw other tt
]

bracketed_ok :
    (s host : Text) (port : Option ℕ)
    → bracketed (split_first b']' s) ≡ ok (host, port)
    → IsHost host × IsPort port
unfolding bracketed
bracketed_ok s host port e = elim (Option-cases (split_first b']' s)) [
  | inl missed ↦ absurd (ground arith)
  | inr ((a, b), found) ↦ (
    inr (ground (arith, split_first-some b']' s a b found)),
    subst IsPort (ground arith) (port_after-IsPort b),
  )
]

parse_trimmed_ok :
    (s host : Text) (port : Option ℕ)
    → parse_trimmed s ≡ ok (host, port)
    → IsHost host × IsPort port
unfolding parse_trimmed
parse_trimmed_ok [] host port e = cc
parse_trimmed_ok (c ∷ s) host port e = elim (Bool-cases (c == b'[')) [
  | inl open_bracket ↦ bracketed_ok s host port (rw open_bracket at e)
  | inr plain ↦ parse_name_ok (c ∷ s) host port (rw plain at e)
]

-- A Host header that is accepted gives a host with no `/`, space and `:`, or with no `]`, and a
-- port below 65536 if it gives one.
pub parse_host_authority_ok :
    (raw host : Text) (port : Option ℕ)
    → parse_host_authority raw ≡ ok (host, port)
    → IsHost host × IsPort port
unfolding parse_host_authority
parse_host_authority_ok raw host port e =
    parse_trimmed_ok (trim_end_by (λ c. c == b'/') (trim raw)) host port e

parse_trimmed_err : (s : Text) (x : ErrorType) → parse_trimmed s ≡ err x → x ≡ http_status 400
unfolding parse_trimmed
parse_trimmed_err [] x e = cc
parse_trimmed_err (c ∷ s) x e = elim (Option-cases (split_first b']' s)) [
  | inl missed ↦ ground arith
  | inr ((a, b), found) ↦ ground arith
]

-- A Host header that is refused is a bad request.
pub parse_host_authority_err :
    (raw : Text) (x : ErrorType) → parse_host_authority raw ≡ err x → x ≡ http_status 400
unfolding parse_host_authority
parse_host_authority_err raw x e = parse_trimmed_err (trim_end_by (λ c. c == b'/') (trim raw)) x e
