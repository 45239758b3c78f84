-- ===== src/Inspector/Path.antt =====
-- Paths as the inspector takes them apart: the components of std::path, and the functions on the
-- text of a path.
use edge_cdn_store.Common.{
  ℕ, Bool, true, false, ◌&&◌, List, [], ◌∷◌, ◌++◌, Option, none, some, ◌==◌, if◌then◌else◌,
}
use edge_cdn_store.Common.Text.{Text, codes, text_eq}
use mathlib.Core.List.{reverse}
use edge_cdn_store.Common.Str.{split_first}

pub data Component : Type 0 where
  root_dir parent_dir : Component
  normal : Text → Component

abbrev pub PathBuf : Type 0
PathBuf = List Component

unfoldable pub component_eq : Component → Component → Bool
component_eq root_dir root_dir = true
component_eq parent_dir parent_dir = true
component_eq (normal s) (normal t) = text_eq s t
component_eq _ _ = false

-- `Path::starts_with` goes by whole components.
unfoldable pub starts_with : PathBuf → PathBuf → Bool
unfolding component_eq
starts_with p [] = true
starts_with [] (c ∷ base) = false
starts_with (d ∷ p) (c ∷ base) = component_eq d c && starts_with p base

-- The components that one piece between two slashes stands for: an empty piece and a dot are
-- dropped, as they are anywhere but at the start of a path.
abbrev pub component : Text → PathBuf
component s =
    if text_eq s []
    then []
    else if text_eq s (codes ".")
    then []
    else if text_eq s (codes "..")
    then parent_dir ∷ []
    else normal s ∷ []

-- The pieces of a text between its slashes; `piece` is what was read of the first one.
unfoldable pub pieces_from : Text → Text → List Text
pieces_from piece [] = piece ∷ []
pieces_from piece (c ∷ s) =
    let next = piece ∷ pieces_from [] s in
    let same = pieces_from (piece ++ c ∷ []) s in if c == b'/' then next else same

unfoldable pub components : List Text → PathBuf
components [] = []
components (s ∷ ss) = component s ++ components ss

abbrev pub is_absolute : Text → Bool
is_absolute [] = false
is_absolute (c ∷ s) = c == b'/'

-- `Path::join` with the text of a path: an absolute one takes the place of the whole path.
unfoldable pub join : PathBuf → Text → PathBuf
unfolding pieces_from components
join root tail =
    let parts = components (pieces_from [] tail) in
    if is_absolute tail then root_dir ∷ parts else root ++ parts

-- `rfind`, as the texts before and after the last occurrence.
abbrev pub flip : Option (Text × Text) → Option (Text × Text)
flip none = none
flip (some (a, b)) = some (reverse b, reverse a)

unfoldable pub split_last : ℕ → Text → Option (Text × Text)
split_last x s = flip (split_first x (reverse s))
