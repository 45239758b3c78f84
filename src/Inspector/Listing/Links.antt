-- ===== src/Inspector/Listing/Links.antt =====
-- Where the links of a listing lead (src/inspector/display_disk_cache.rs): a request for a link has
-- as its tail what follows /cache/, as it was sent.
use mathlib.Core.Path.{ap₂}
use mathlib.Core.List.{reverse, reverse-append, reverse-reverse, append_cancel_left}
use edge_cdn_store.Common.{
  ℕ, ◌≡◌, ◌↔◌, refl, sym, ap, ◌∙◌, Bool, true, false, inl, inr, [], ◌∷◌, ◌++◌, append_assoc,
  append-nil, Bool-cases, ==_iff, arith, if◌then◌else◌, ◌==◌,
}
use edge_cdn_store.Common.Text.{Text, codes, text_eq}
use edge_cdn_store.Common.Str.{trim_start_by, trim_end_by, contains_char}
use edge_cdn_store.Inspector.Path.{
  PathBuf, normal, component, pieces_from, components, is_absolute, join,
}
use edge_cdn_store.Inspector.Listing.{is_slash, ends_with_slash, base_of, href_of}

-- The components of a text, of which a first piece was read.
abbrev comps : Text → Text → PathBuf
comps piece s = components (pieces_from piece s)

comps-append : (piece a b : Text) → comps piece (a ++ b'/' ∷ b) ≡ comps piece a ++ comps [] b
unfolding pieces_from components
comps-append piece [] b = rw append-nil refl
comps-append piece (c ∷ a) b = elim (Bool-cases (c == b'/')) [
  | inl slash ↦ rw slash (rw (comps-append [] a b) (sym (append_assoc (component piece) _ _)))
  | inr other ↦ rw other (comps-append (piece ++ c ∷ []) a b)
]

comps_slash : (s : Text) → comps [] (s ++ b'/' ∷ []) ≡ comps [] s
unfolding pieces_from components text_eq
comps_slash s = comps-append [] s [] ∙ append-nil (comps [] s)

comps-reverse_trim :
    (u : Text) → comps [] (reverse (trim_start_by is_slash u)) ≡ comps [] (reverse u)
unfolding trim_start_by
comps-reverse_trim [] = refl
comps-reverse_trim (c ∷ u) = elim (Bool-cases (c == b'/')) [
  | inl slash ↦ rw slash (
      comps-reverse_trim u
      ∙ sym (comps_slash (reverse u))
      ∙ ap (λ (d : ℕ). comps [] (reverse u ++ d ∷ [])) (sym ((==_iff c b'/').0 slash))
      ∙ ap (comps []) (sym (reverse-append (c ∷ []) u)))
  | inr other ↦ rw other refl
]

comps-trim_end_by : (s : Text) → comps [] (trim_end_by is_slash s) ≡ comps [] s
unfolding trim_end_by
comps-trim_end_by s = comps-reverse_trim (reverse s) ∙ ap (comps []) (reverse-reverse s)

-- A piece without a slash is one component.
comps_piece :
    (piece s : Text) → contains_char b'/' s ≡ false → comps piece s ≡ component (piece ++ s)
unfolding pieces_from components contains_char
comps_piece piece [] h = append-nil (component piece) ∙ ap component (sym (append-nil piece))
comps_piece piece (c ∷ s) h = elim (Bool-cases (c == b'/')) [
  | inl slash ↦ absurd (ground arith)
  | inr other ↦ rw other (
      comps_piece (piece ++ c ∷ []) s (ground arith) ∙ ap component (append_assoc piece (c ∷ []) s))
]

trim_start_by_snoc :
    (u : Text) (c : ℕ)
    → is_slash c ≡ false
    → trim_start_by is_slash (u ++ c ∷ []) ≡ trim_start_by is_slash u ++ c ∷ []
unfolding trim_start_by
trim_start_by_snoc [] c h = rw h
trim_start_by_snoc (d ∷ u) c h = ground (arith, trim_start_by_snoc u c h)

-- Trimming the end keeps a first character that is no slash.
trim_end_by_first :
    (c : ℕ) (s : Text)
    → is_slash c ≡ false
    → trim_end_by is_slash (c ∷ s) ≡ c ∷ reverse (trim_start_by is_slash (reverse s))
unfolding trim_end_by
trim_end_by_first c s h =
    ap (λ (u : Text). reverse (trim_start_by is_slash u)) (reverse-append (c ∷ []) s)
    ∙ ap reverse (trim_start_by_snoc (reverse s) c h)
    ∙ reverse-append (trim_start_by is_slash (reverse s)) (c ∷ [])

-- The encoded name, with the slash that a directory gets.
abbrev entry_text : Text → Bool → Text
entry_text n is_dir = n ++ (if is_dir then codes "/" else [])

comps_entry :
    (n : Text) (is_dir : Bool)
    → contains_char b'/' n ≡ false
    → comps [] (entry_text n is_dir) ≡ component n
comps_entry n true h = comps_slash n ∙ comps_piece [] n h
comps_entry n false h = ap (comps []) (append-nil n) ∙ comps_piece [] n h

ends_with_slash-snoc : (s : Text) → ends_with_slash s ≡ true → (v : Text) × (s ≡ v ++ b'/' ∷ [])
unfolding ends_with_slash
ends_with_slash-snoc [] h = cc
ends_with_slash-snoc (c ∷ []) h = ([], ap (λ (d : ℕ). d ∷ []) ((==_iff c b'/').0 h))
ends_with_slash-snoc (c ∷ d ∷ s) h =
    let (v, e) = ends_with_slash-snoc (d ∷ s) h in (c ∷ v, ap (λ (t : Text). c ∷ t) e)

-- The separator goes in where the base does not end in a slash.
comps_separated :
    (a rest : Text)
    → comps [] (a ++ ((if ends_with_slash a then [] else codes "/") ++ rest))
      ≡ comps [] a ++ comps [] rest
comps_separated a rest = elim (Bool-cases (ends_with_slash a)) [
  | inr open_end ↦ rw open_end (comps-append [] a rest)
  | inl closed ↦
      let (v, e) = ends_with_slash-snoc a closed in
      rw closed (
        ap (λ (t : Text). comps [] (t ++ rest)) e
        ∙ ap (comps []) (append_assoc v (b'/' ∷ []) rest)
        ∙ comps-append [] v rest
        ∙ ap (λ (q : PathBuf). q ++ comps [] rest) (sym (ap (comps []) e ∙ comps_slash v)))
]

-- A name that can stand as one component of a path.
pub record IsPlain (n : Text) : Type 0 where
  pub no_slash : contains_char b'/' n ≡ false
  pub one_component : component n ≡ normal n ∷ []

IsPlain-relative :
    (n : Text) (is_dir : Bool) → IsPlain n → is_absolute (entry_text n is_dir) ≡ false
unfolding contains_char text_eq
IsPlain-relative [] is_dir h = cc (h.one_component)
IsPlain-relative (c ∷ n) is_dir h = ground (arith, h.no_slash)

-- The tail of a link: what follows /cache/.
tail_at_root :
    (encode : Text → Text) (name : Text) (is_dir : Bool)
    → href_of encode (base_of []) (name, is_dir)
      ≡ codes "/cache/" ++ entry_text (encode name) is_dir
unfolding href_of base_of
tail_at_root encode name is_dir = refl

-- Below the root the tail of a link begins with that of the directory, without slashes at its end.
abbrev tail_below : (Text → Text) → Text → Text → Bool → Text
tail_below encode t name is_dir =
    let u = trim_end_by is_slash t in
    u ++ ((if ends_with_slash u then [] else codes "/") ++ entry_text (encode name) is_dir)

href_below :
    (encode : Text → Text) (c : ℕ) (s name : Text) (is_dir : Bool)
    → is_slash c ≡ false
    → href_of encode (base_of (c ∷ s)) (name, is_dir)
      ≡ codes "/cache/" ++ tail_below encode (c ∷ s) name is_dir
unfolding href_of base_of
href_below encode c s name is_dir h = rw (trim_end_by_first c s h, ends_with_slash) refl

join_relative :
    (root : PathBuf) (t : Text) → is_absolute t ≡ false → join root t ≡ root ++ comps [] t
unfolding join
join_relative root t h = rw h refl

module _ (encode : Text → Text) (root : PathBuf) (name : Text) (is_dir : Bool)
    (plain : IsPlain (encode name)) where
  entry_path : comps [] (entry_text (encode name) is_dir) ≡ normal (encode name) ∷ []
  entry_path = comps_entry (encode name) is_dir plain.no_slash ∙ plain.one_component

  join-at_root :
      join root (entry_text (encode name) is_dir) ≡ join root [] ++ normal (encode name) ∷ []
  unfolding join text_eq
  join-at_root =
      rw (IsPlain-relative (encode name) is_dir plain, entry_path)
        (ap (λ (q : PathBuf). q ++ normal (encode name) ∷ []) (sym (append-nil root)))

  join-below :
      (c : ℕ) (s : Text)
      → is_slash c ≡ false
      → join root (tail_below encode (c ∷ s) name is_dir)
        ≡ join root (c ∷ s) ++ normal (encode name) ∷ []
  join-below c s h =
      let u = trim_end_by is_slash (c ∷ s) in
      let parts : comps [] (tail_below encode (c ∷ s) name is_dir)
          ≡ comps [] (c ∷ s) ++ normal (encode name) ∷ [] =
        comps_separated u (entry_text (encode name) is_dir)
        ∙ ap₂ (λ (p q : PathBuf). p ++ q) (comps-trim_end_by (c ∷ s)) entry_path in
      let relative : is_absolute (tail_below encode (c ∷ s) name is_dir) ≡ false =
        rw (trim_end_by_first c s h) h in
      join_relative root (tail_below encode (c ∷ s) name is_dir) relative
      ∙ ap (λ (q : PathBuf). root ++ q) parts
      ∙ sym (append_assoc root (comps [] (c ∷ s)) (normal (encode name) ∷ []))
      ∙ ap (λ (q : PathBuf). q ++ normal (encode name) ∷ []) (sym (join_relative root (c ∷ s) h))

  named :
      (tail tail' : Text)
      → join root tail' ≡ join root tail ++ normal (encode name) ∷ []
      → (join root tail' ≡ join root tail ++ normal name ∷ []) ↔ (encode name ≡ name)
  named tail tail' e = (
    λ q.
        let same : normal (encode name) ∷ [] ≡ normal name ∷ [] =
          append_cancel_left (join root tail) _ _ (sym e ∙ q) in
        cc same,
    λ q. e ∙ ap (λ (n : Text). join root tail ++ normal n ∷ []) q,
  )

  -- In the listing of a directory, asked for by a tail without a leading slash, the link of an
  -- entry is a path below /cache/ whose tail leads to the directory and then to the encoded name,
  -- if this can be one component of a path. So it leads to the entry itself exactly when encoding
  -- changes nothing in the name: a tail is not decoded.
  pub link_leads :
      (tail : Text)
      → is_absolute tail ≡ false
      → (tail' : Text) × (href_of encode (base_of (trim_start_by is_slash tail)) (name, is_dir)
          ≡ codes "/cache/" ++ tail')
        × (join root tail' ≡ join root tail ++ normal (encode name) ∷ [])
        × ((join root tail' ≡ join root tail ++ normal name ∷ []) ↔ (encode name ≡ name))
  unfolding trim_start_by
  link_leads [] h = (
    entry_text (encode name) is_dir,
    tail_at_root encode name is_dir,
    join-at_root,
    named [] (entry_text (encode name) is_dir) join-at_root,
  )
  link_leads (c ∷ s) h = (
    tail_below encode (c ∷ s) name is_dir,
    rw h (href_below encode c s name is_dir h),
    join-below c s h,
    named (c ∷ s) (tail_below encode (c ∷ s) name is_dir) (join-below c s h),
  )
