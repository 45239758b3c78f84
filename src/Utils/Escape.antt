-- ===== src/Utils/Escape.antt =====
-- `html_escape` replaces in three passes; what they come to, and that the text can be read back.
use edge_cdn_store.Common.{
  ℕ, ◌≡◌, refl, ap, ◌∙◌, sym, false, [], ◌∷◌, ◌++◌, append_assoc, map, concat, ◌==◌, if◌then◌else◌,
  arith, zero, suc,
}
use edge_cdn_store.Common.Text.{Text, codes}
use edge_cdn_store.Common.Str.{contains_char}
use edge_cdn_store.Common.Str.Split.{contains_char-append}
use edge_cdn_store.Utils.{replace, html_escape}

-- What one character is shown as.
abbrev pub entity : ℕ → Text
entity c =
    if c == b'&'
    then codes "&amp;"
    else if c == b'<'
    then codes "&lt;"
    else if c == b'>'
    then codes "&gt;"
    else c ∷ []

replace-append : (x : ℕ) (by s t : Text) → replace x by (s ++ t) ≡ replace x by s ++ replace x by t
unfolding replace
replace-append x by [] t = refl
replace-append x by (c ∷ s) t =
    ap (λ r. (if c == x then by else c ∷ []) ++ r) (replace-append x by s t)
    ∙ sym (append_assoc (if c == x then by else c ∷ []) (replace x by s) (replace x by t))

html_escape-append : (s t : Text) → html_escape (s ++ t) ≡ html_escape s ++ html_escape t
unfolding html_escape
html_escape-append s t = simp (replace-append)

html_escape_one : (c : ℕ) → html_escape (c ∷ []) ≡ entity c
unfolding html_escape replace
html_escape_one c = ground arith

-- The three passes, one after the other, are one pass that shows each character by its entity: no
-- pass escapes what an earlier one wrote.
pub html_escape-entity : (s : Text) → html_escape s ≡ concat (map entity s)
html_escape-entity [] = unfold html_escape replace in refl
html_escape-entity (c ∷ s) =
    html_escape-append (c ∷ []) s
    ∙ ap (λ r. r ++ html_escape s) (html_escape_one c)
    ∙ ap (λ r. entity c ++ r) (html_escape-entity s)

-- A reader of the page: it skips the rest of an entity that it has read.
abbrev head : Text → ℕ
head [] = 0
head (c ∷ s) = c

unescape_from : ℕ → Text → Text
unescape_from n [] = []
unescape_from (suc n) (c ∷ s) = unescape_from n s
unescape_from zero (c ∷ s) =
    let amp = b'&' ∷ unescape_from 4 s in
    let lt = b'<' ∷ unescape_from 3 s in
    let gt = b'>' ∷ unescape_from 3 s in
    let same = c ∷ unescape_from 0 s in
    if c == b'&' then (if head s == b'a' then amp else if head s == b'l' then lt else gt) else same

unfoldable pub unescape : Text → Text
unfolding unescape_from
unescape = unescape_from 0

unescape-entity : (c : ℕ) (s : Text) → unescape (entity c ++ s) ≡ c ∷ unescape s
unfolding unescape
unescape-entity c s = ground arith

unescape-concat : (s : Text) → unescape (concat (map entity s)) ≡ s
unescape-concat [] = unfold unescape in refl
unescape-concat (c ∷ s) =
    unescape-entity c (concat (map entity s)) ∙ ap (λ r. c ∷ r) (unescape-concat s)

entity_plain :
    (c : ℕ) → (contains_char b'<' (entity c) ≡ false) × (contains_char b'>' (entity c) ≡ false)
unfolding contains_char
entity_plain c = ground arith

no_brackets :
    (s : Text)
    → (contains_char b'<' (concat (map entity s)) ≡ false)
      × (contains_char b'>' (concat (map entity s)) ≡ false)
no_brackets [] = unfold contains_char in (refl, refl)
no_brackets (c ∷ s) = ground (
  arith,
  contains_char-append b'<' (entity c) (concat (map entity s)),
  contains_char-append b'>' (entity c) (concat (map entity s)),
  entity_plain c,
  no_brackets s,
)

-- An escaped text has no angle bracket, and a reader that knows the three entities gets the text
-- back.
pub html_escape_safe :
    (s : Text)
    → (contains_char b'<' (html_escape s) ≡ false)
      × (contains_char b'>' (html_escape s) ≡ false)
      × (unescape (html_escape s) ≡ s)
html_escape_safe s =
    rw (html_escape-entity s) ((no_brackets s).0, (no_brackets s).1, unescape-concat s)
