-- ===== src/Host/Tests.antt =====
-- Host headers that are accepted and refused, and the theorems at concrete headers.
use edge_cdn_store.Common.{◌≡◌, refl, ◌++◌, ◌∷◌, none, some, ok, err, false, arith, ◌==◌}
use edge_cdn_store.Common.Text.{codes, decimal}
use edge_cdn_store.Common.Str.{trim, trim_end_by, contains_char, split_first, parse_u16}
use edge_cdn_store.Common.State.{http_status}
use edge_cdn_store.Host.{parse_host_authority}
use edge_cdn_store.Host.Bounds.{IsPort}
use edge_cdn_store.Host.Parts.{Parts, parse_host_authority-Parts}
use edge_cdn_store.Host.RoundTrip.{
  IsName, parse_host_authority-name, parse_host_authority-bracketed,
}

with_port : parse_host_authority (codes " example.org:8080/ ") ≡ ok (codes "example.org", some 8080)
unfolding parse_host_authority trim contains_char split_first parse_u16
with_port = refl

large_port : parse_host_authority (codes "example.org:65536") ≡ ok (codes "example.org", none)
unfolding parse_host_authority trim contains_char split_first parse_u16
large_port = refl

ipv6 : parse_host_authority (codes "[::1]:6143") ≡ ok (codes "::1", some 6143)
unfolding parse_host_authority trim contains_char split_first parse_u16
ipv6 = refl

unclosed : parse_host_authority (codes "[::1") ≡ err (http_status 400)
unfolding parse_host_authority trim contains_char split_first parse_u16
unclosed = refl

parse_host_authority-Parts_example :
    Parts
      (trim_end_by (λ c. c == b'/') (trim (codes " example.org:8080/ ")))
      (codes "example.org")
      (some 8080)
    × IsPort (some 8080)
parse_host_authority-Parts_example =
    parse_host_authority-Parts (codes " example.org:8080/ ") (codes "example.org") (some 8080)
      with_port

pub github-IsName : IsName (codes "github.com")
unfolding contains_char
github-IsName = record {
  begins = (refl, omega arith);
  no_slash = refl;
  no_space = refl;
  no_colon = refl;
}

parse_host_authority-name_example :
    parse_host_authority (codes "github.com" ++ b':' ∷ decimal 8443)
    ≡ ok (codes "github.com", some 8443)
parse_host_authority-name_example =
    parse_host_authority-name (codes "github.com") 8443 github-IsName (omega arith)

no_bracket : contains_char b']' (codes "::1") ≡ false
unfolding contains_char
no_bracket = refl

parse_host_authority-bracketed_example :
    parse_host_authority (b'[' ∷ codes "::1" ++ b']' ∷ b':' ∷ decimal 80)
    ≡ ok (codes "::1", some 80)
parse_host_authority-bracketed_example =
    parse_host_authority-bracketed (codes "::1") 80 no_bracket (omega arith)
