-- ===== src/Inspector/Listing.antt =====
-- The page that lists a directory (src/inspector/display_disk_cache.rs, `render_dir_listing`).
pub mod Order
pub mod Links
use Prim.Native.Nat.{Ordering, compare}
use edge_cdn_store.Common.{
  ℕ, Bool, true, false, ◌&&◌, List, [], ◌∷◌, ◌++◌, Option, none, some, map, concat, ◌==◌,
  if◌then◌else◌,
}
use edge_cdn_store.Common.Text.{Text, codes}
use edge_cdn_store.Common.Str.{trim_start_by, trim_end_by}
use edge_cdn_store.Utils.{html_escape, unwrap_or}
use edge_cdn_store.Inspector.Path.{PathBuf, split_last}

-- An entry of a directory as `next_entry` gives it: its name, and whether it is a directory, if its
-- type can be found out.
pub record DirEntry : Type 0 where
  pub file_name : Text
  pub is_dir : Option Bool

-- `while let Some(e) = entries.next_entry().await?`: the entries up to the end, or an error.
pub data ReadDir : Type 0 where
  end failed : ReadDir
  next_entry : DirEntry → ReadDir → ReadDir

abbrev pub Item : Type 0
Item = Text × Bool

add_item : DirEntry → Option (List Item) → Option (List Item)
add_item e none = none
add_item e (some items) = some ((e.file_name, unwrap_or e.is_dir false) ∷ items)

unfoldable pub collect : ReadDir → Option (List Item)
unfolding add_item
collect end = some []
collect failed = none
collect (next_entry e entries) = add_item e (collect entries)

-- `Ord` of texts by their code points, which is that of their UTF-8 bytes, and of `bool`.
abbrev pub then_with : Ordering → Ordering → Ordering
then_with Ordering.eq o = o
then_with Ordering.lt o = Ordering.lt
then_with Ordering.gt o = Ordering.gt

abbrev pub reverse_order : Ordering → Ordering
reverse_order Ordering.lt = Ordering.gt
reverse_order Ordering.eq = Ordering.eq
reverse_order Ordering.gt = Ordering.lt

unfoldable pub text_cmp : Text → Text → Ordering
text_cmp [] [] = Ordering.eq
text_cmp [] (y ∷ t) = Ordering.lt
text_cmp (x ∷ s) [] = Ordering.gt
text_cmp (x ∷ s) (y ∷ t) = then_with (compare x y) (text_cmp s t)

abbrev pub bool_cmp : Bool → Bool → Ordering
bool_cmp false true = Ordering.lt
bool_cmp true false = Ordering.gt
bool_cmp _ _ = Ordering.eq

-- `sort_by`: a stable sort. An item goes in front of the first one that it does not exceed.
module _ {A : Type 0} (cmp : A → A → Ordering) where
  pub insert_by : A → List A → List A
  insert_by x [] = x ∷ []
  insert_by x (y ∷ ys) =
      let rest = y ∷ insert_by x ys in elim (cmp x y) [ Ordering.gt ↦ rest | _ ↦ x ∷ y ∷ ys ]

  pub sort_by : List A → List A
  sort_by [] = []
  sort_by (x ∷ xs) = insert_by x (sort_by xs)

-- `to_lowercase` is that of the standard library, for all of Unicode.
module _ (to_lowercase : Text → Text) where
  -- The closure that `sort_by` is called with, written as in the source.
  abbrev pub item_cmp : Item → Item → Ordering
  item_cmp a b =
      reverse_order (then_with (bool_cmp b.1 a.1) (text_cmp (to_lowercase a.0) (to_lowercase b.0)))

  unfoldable pub sort_items : List Item → List Item
  unfolding sort_by insert_by
  sort_items = sort_by item_cmp

abbrev pub is_slash : ℕ → Bool
is_slash c = c == b'/'

abbrev pub is_empty : Text → Bool
is_empty [] = true
is_empty (c ∷ s) = false

ends_with_slash : Text → Bool
ends_with_slash [] = false
ends_with_slash (c ∷ []) = is_slash c
ends_with_slash (c ∷ d ∷ s) = ends_with_slash (d ∷ s)

-- The reference of the parent of a directory, given as a tail with no slash at its end.
parent_of : Option (Text × Text) → Text
parent_of (some (before, after)) =
    if is_empty before then codes "/cache/" else codes "/cache/" ++ (before ++ codes "/")
parent_of none = codes "/cache/"

unfoldable pub parent_href : Text → Text
unfolding parent_of
parent_href t = parent_of (split_last b'/' t)

unfoldable pub base_of : Text → Text
base_of tail_norm =
    if is_empty tail_norm then codes "/cache" else codes "/cache/" ++ trim_end_by is_slash tail_norm

-- `encode` is that of the crate urlencoding.
module _ (encode : Text → Text) where
  unfoldable pub href_of : Text → Item → Text
  unfolding ends_with_slash
  href_of base (name, is_dir) =
      let sep = if ends_with_slash base then [] else codes "/" in
      base ++ (sep ++ (encode name ++ (if is_dir then codes "/" else [])))

  unfoldable pub item_html : Text → Item → Text
  item_html base (name, is_dir) =
      let display = if is_dir then name ++ codes "/" else name in
      let icon = if is_dir then codes "📁" else codes "📄" in
      let class = if is_dir then codes "class='dir'" else [] in
      codes "<li>"
      ++ (icon
          ++ (codes " <a "
              ++ (class
                  ++ (codes " href='"
                      ++ (href_of base (name, is_dir)
                          ++ (codes "'>" ++ (html_escape display ++ codes "</a></li>")))))))

unfoldable pub parent_html : Text → Text
parent_html tail_norm =
    if is_empty tail_norm
    then []
    else codes "<li>📁 <a class='dir' href='"
      ++ (parent_href (trim_end_by is_slash tail_norm) ++ codes "'>../</a></li>")

page : (Text → Text) → (Text → Text) → Text → List Item → Text
page to_lowercase encode tail items =
    let tail_norm = trim_start_by is_slash tail in
    codes "<!doctype html><meta charset=utf-8>"
    ++ (codes
          "<style>body{font:14px system-ui;margin:2rem} a{text-decoration:none} .dir{font-weight:600}</style>"
        ++ (codes "<h1>Index of /"
            ++ (html_escape tail_norm
                ++ (codes "</h1><ul>"
                    ++ (parent_html tail_norm
                        ++ (concat (
                              map (item_html encode (base_of tail_norm))
                                (sort_items to_lowercase items))
                            ++ codes "</ul>"))))))

render : (Text → Text) → (Text → Text) → Text → Option (List Item) → Option Text
render to_lowercase encode tail none = none
render to_lowercase encode tail (some items) = some (page to_lowercase encode tail items)

-- `render_dir_listing`, after `fs::read_dir` has opened the directory.
unfoldable pub render_dir_listing : (Text → Text) → (Text → Text) → Text → ReadDir → Option Text
unfolding render page
render_dir_listing to_lowercase encode tail entries =
    render to_lowercase encode tail (collect entries)
