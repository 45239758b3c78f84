-- ===== src/Host.antt =====
-- The Host header (src/utils.rs): `parse_host_authority`.
pub mod Bounds
pub mod Parts
pub mod RoundTrip
mod Tests
use edge_cdn_store.Common.{
  ℕ, Bool, ◌||◌, List, [], ◌∷◌, Option, none, some, Result, ok, err, ◌==◌, if◌then◌else◌,
}
use edge_cdn_store.Common.Text.{Text}
use edge_cdn_store.Common.Str.{trim, trim_end_by, contains_char, split_first, parse_u16}
use edge_cdn_store.Common.State.{ErrorType, http_status}

-- `after.strip_prefix(':').and_then(…)`
port_after : Text → Option ℕ
port_after [] = none
port_after (c ∷ p) = if c == b':' then parse_u16 p else none

-- The text behind `[`, split at the first `]`.
bracketed : Option (Text × Text) → Result ErrorType (Text × Option ℕ)
bracketed none = err (http_status 400)
bracketed (some (host, after)) = ok (host, port_after after)

-- `splitn(2, ':')`
host_and_port : Text → Option (Text × Text) → Text × Option ℕ
host_and_port s none = (s, none)
host_and_port s (some (host, p)) = (host, parse_u16 p)

parse_name : Text → Result ErrorType (Text × Option ℕ)
unfolding host_and_port
parse_name s =
    if contains_char b'/' s || contains_char b' ' s
    then err (http_status 400)
    else ok (host_and_port s (split_first b':' s))

parse_trimmed : Text → Result ErrorType (Text × Option ℕ)
unfolding bracketed port_after parse_name
parse_trimmed [] = err (http_status 400)
parse_trimmed (c ∷ s) = if c == b'[' then bracketed (split_first b']' s) else parse_name (c ∷ s)

unfoldable pub parse_host_authority : Text → Result ErrorType (Text × Option ℕ)
unfolding parse_trimmed
parse_host_authority raw = parse_trimmed (trim_end_by (λ c. c == b'/') (trim raw))
