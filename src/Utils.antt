-- ===== src/Utils.antt =====
-- The small functions of src/utils.rs: the environment, text for web pages, and the text of keys.
-- `parse_host_authority` is in Host, `scheme_from_hdr` in Proxy.
pub mod Escape
pub mod Hex
mod Tests
use edge_cdn_store.Common.{
  ℕ, zero, suc, ◌/◌, ◌%◌, List, [], ◌∷◌, ◌++◌, Option, none, some, ◌==◌, if◌then◌else◌,
}
use edge_cdn_store.Common.Text.{Text, codes}
use edge_cdn_store.Common.Str.{trim}

-- `std::env::var`, where a variable that is not text counts as missing.
abbrev pub Environment : Type 0
Environment = Text → Option Text

abbrev pub unwrap_or {ℓ} : {A : Type ℓ} → Option A → A → A
unwrap_or none default = default
unwrap_or (some a) default = a

abbrev pub and_then {ℓ κ} : {A : Type ℓ} {B : Type κ} → Option A → (A → Option B) → Option B
and_then none f = none
and_then (some a) f = f a

unfoldable pub env_var_or_str : Environment → Text → Text → Text
env_var_or_str env var_name default = unwrap_or (env var_name) default

-- `from_str` is the parser of the type `T`.
unfoldable pub env_var_or_num {ℓ} : {T : Type ℓ} → (Text → Option T) → Environment → Text → T → T
env_var_or_num from_str env var_name default =
    unwrap_or (and_then (env var_name) (λ s. from_str (trim s))) default

-- `str::replace` of one character by a text.
unfoldable pub replace : ℕ → Text → Text → Text
replace x by [] = []
replace x by (c ∷ s) = (if c == x then by else c ∷ []) ++ replace x by s

unfoldable pub html_escape : Text → Text
html_escape s =
    replace b'>' (codes "&gt;") (replace b'<' (codes "&lt;") (replace b'&' (codes "&amp;") s))

-- consts.rs
abbrev pub hex_chars : Text
hex_chars = codes "0123456789ABCDEF"

-- A byte shifted by four, or masked to its low four bits, is always an index of the table.
abbrev pub char_at : Text → ℕ → ℕ
char_at [] i = 0
char_at (c ∷ s) zero = c
char_at (c ∷ s) (suc i) = char_at s i

unfoldable pub hex2str : List ℕ → Text
hex2str [] = []
hex2str (byte ∷ hex) = char_at hex_chars (byte / 16) ∷ char_at hex_chars (byte % 16) ∷ hex2str hex

abbrev pub quotes : Text
quotes = codes "\"\""

abbrev pub non_empty : Text → Text
non_empty [] = quotes
non_empty (c ∷ s) = c ∷ s

unfoldable pub display_opt_str : Option Text → Text
display_opt_str none = quotes
display_opt_str (some s) = non_empty s

-- What the code asks of a key of pingora_cache; for the variance and the extensions, the texts
-- that `{:?}` prints.
pub record KeyParts : Type 0 where
  pub namespace_str : Option Text
  pub primary_key_str : Option Text
  pub primary_bin : List ℕ
  pub variance : Text
  pub user_tag : Text
  pub extensions : Text

-- `{:?}` of a text of hexadecimal digits.
abbrev debug_hex : List ℕ → Text
debug_hex bin = b'"' ∷ hex2str bin ++ b'"' ∷ []

unfoldable pub format_cache_key : KeyParts → Text
format_cache_key ck =
    let ns = codes "Namespace: " ++ display_opt_str ck.namespace_str in
    let pk = codes "Primary Key: " ++ display_opt_str ck.primary_key_str in
    let p = codes "Primary: " ++ debug_hex ck.primary_bin in
    let v = codes "Variance: " ++ ck.variance in
    let ut = codes "User tag: " ++ non_empty ck.user_tag in
    let ext = codes "Extension: " ++ ck.extensions in
    let sep = codes ", " in
    ns ++ (sep ++ (pk ++ (sep ++ (p ++ (sep ++ (v ++ (sep ++ (ut ++ (sep ++ ext)))))))))

unfoldable pub format_compact_cache_key : KeyParts → Text
format_compact_cache_key ck =
    let p = codes "Primary: " ++ debug_hex ck.primary_bin in
    let v = codes "Variance: " ++ ck.variance in
    let ut = codes "User tag: " ++ non_empty ck.user_tag in
    let sep = codes ", " in p ++ (sep ++ (v ++ (sep ++ ut)))
