-- ===== src/Proxy/Key.antt =====
-- The cache key of a request (`cache_key_callback`): what it tells apart, and what it does not.
use mathlib.Core.Path.{ap₂}
use edge_cdn_store.Common.{
  ℕ, ◌≤◌, ◌≡◌, ◌≢◌, ◌↔◌, refl, sym, ◌∙◌, ap, drop, Bool, true, false, [], ◌∷◌, ◌++◌, some, arith,
  if◌then◌else◌, ◌==◌,
}
use edge_cdn_store.Common.Text.{Text, codes, decimal, text_eq}
use edge_cdn_store.Common.Str.{to_ascii_lowercase, contains_char, split_first, lower}
use edge_cdn_store.Common.Str.Split.{split_first-append}
use edge_cdn_store.Host.RoundTrip.{IsName, parse_host_authority-name, trim-name}
use edge_cdn_store.Proxy.{
  Session, EdgeCdnProxy, https, http, primary_key, cache_key_callback, upstream_peer,
}

lower_slash : (c : ℕ) → (lower c == b'/') ≡ (c == b'/')
lower_slash c = ground arith

contains_char-to_ascii_lowercase :
    (s : Text) → contains_char b'/' (to_ascii_lowercase s) ≡ contains_char b'/' s
unfolding contains_char to_ascii_lowercase
contains_char-to_ascii_lowercase [] = refl
contains_char-to_ascii_lowercase (c ∷ s) =
    ground (arith, lower_slash c, contains_char-to_ascii_lowercase s)

abbrev fifth : Text → ℕ
fifth (_ ∷ _ ∷ _ ∷ _ ∷ c ∷ _) = c
fifth _ = 0

key_parts :
    (host host' p p' : Text)
    → contains_char b'/' host ≡ false
    → contains_char b'/' host' ≡ false
    → to_ascii_lowercase host ++ b'/' ∷ p ≡ to_ascii_lowercase host' ++ b'/' ∷ p'
    → (to_ascii_lowercase host ≡ to_ascii_lowercase host') × (p ≡ p')
key_parts host host' p p' h h' e =
    let a = to_ascii_lowercase host in
    let b = to_ascii_lowercase host' in
    let left = split_first-append b'/' a p (contains_char-to_ascii_lowercase host ∙ h) in
    let right = split_first-append b'/' b p' (contains_char-to_ascii_lowercase host' ∙ h') in
    let same = sym left ∙ ap (split_first b'/') e ∙ right in ground (arith, same)

-- A key is the scheme, the host in lower case and the path, and can be taken apart again: two keys
-- are the same exactly when these three are, for hosts without a slash and absolute paths.
pub primary_key_iff :
    (tls tls' : Bool) (host host' p p' : Text)
    → contains_char b'/' host ≡ false
    → contains_char b'/' host' ≡ false
    → (primary_key tls host (b'/' ∷ p) ≡ primary_key tls' host' (b'/' ∷ p'))
      ↔ ((tls ≡ tls') × (to_ascii_lowercase host ≡ to_ascii_lowercase host') × (p ≡ p'))
primary_key_iff true false host host' p p' h h' =
    (λ e. absurd (omega (arith, ap fifth e)), λ q. cc (q.0))
primary_key_iff false true host host' p p' h h' =
    (λ e. absurd (omega (arith, ap fifth e)), λ q. cc (q.0))
primary_key_iff true true host host' p p' h h' = (
  λ e. let (a, b) = key_parts host host' p p' h h' (ap (drop 8) e) in (refl, a, b),
  λ q. ap (λ r. https ++ (codes "://" ++ r)) (ap₂ (λ a b. a ++ b'/' ∷ b) q.1 q.2),
)
primary_key_iff false false host host' p p' h h' = (
  λ e. let (a, b) = key_parts host host' p p' h h' (ap (drop 7) e) in (refl, a, b),
  λ q. ap (λ r. http ++ (codes "://" ++ r)) (ap₂ (λ a b. a ++ b'/' ∷ b) q.1 q.2),
)

abbrev pub with_host : Session → Text → Session
with_host s host = record s {
  header = λ name. if text_eq name (codes "Host") then some host else s.header name;
}

-- Two requests whose Host headers name one host and two ports go to two different peers, and
-- share one cache key.
pub cache_key_callback-ports :
    (x : EdgeCdnProxy) (s : Session) (host : Text) (n n' : ℕ)
    → IsName host
    → n ≤ 65535
    → n' ≤ 65535
    → n ≢ n'
    → let a = with_host s (host ++ b':' ∷ decimal n) in
      let b = with_host s (host ++ b':' ∷ decimal n') in
      (cache_key_callback x a ≡ cache_key_callback x b) × (upstream_peer x a ≢ upstream_peer x b)
unfolding text_eq cache_key_callback upstream_peer
cache_key_callback-ports x s host n n' h k k' ne =
    let p = parse_host_authority-name host n h k in
    let p' = parse_host_authority-name host n' h k' in
    (ground (arith, p, p'), λ e. ground (arith, p, p', trim-name host n h, trim-name host n' h))
