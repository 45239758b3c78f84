-- ===== src/Utils/Tests.antt =====
-- Runs of the functions on text, and the theorems at concrete texts.
use edge_cdn_store.Common.{◌≡◌, refl, false, [], ◌∷◌, none, some}
use edge_cdn_store.Common.Text.{codes}
use edge_cdn_store.Common.Str.{contains_char, parse_u16, trim}
use edge_cdn_store.Utils.{html_escape, hex2str, env_var_or_num, format_compact_cache_key, replace}
use edge_cdn_store.Utils.Escape.{unescape, html_escape_safe}

escaped : html_escape (codes "<a>&") ≡ codes "&lt;a&gt;&amp;"
unfolding html_escape replace
escaped = refl

printed :
    format_compact_cache_key (record {
      namespace_str = none;
      primary_key_str = none;
      primary_bin = 0x0F ∷ 0xA0 ∷ [];
      variance = codes "None";
      user_tag = [];
      extensions = [];
    })
    ≡ codes "Primary: \"0FA0\", Variance: None, User tag: \"\""
unfolding format_compact_cache_key hex2str
printed = refl

port :
    env_var_or_num parse_u16 (λ name. some (codes " 8000 ")) (codes "PROXY_HTTP_PORT") 6188 ≡ 8000
unfolding env_var_or_num parse_u16 trim
port = refl

port_too_large :
    env_var_or_num parse_u16 (λ name. some (codes "70000")) (codes "PROXY_HTTP_PORT") 6188 ≡ 6188
unfolding env_var_or_num parse_u16 trim
port_too_large = refl

html_escape_safe_example :
    (contains_char b'<' (html_escape (codes "<a>&amp;")) ≡ false)
    × (contains_char b'>' (html_escape (codes "<a>&amp;")) ≡ false)
    × (unescape (html_escape (codes "<a>&amp;")) ≡ codes "<a>&amp;")
html_escape_safe_example = html_escape_safe (codes "<a>&amp;")
