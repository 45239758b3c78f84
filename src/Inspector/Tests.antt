-- ===== src/Inspector/Tests.antt =====
-- A small tree, requests to it, and the theorems at them.
use mathlib.Core.List.{Perm}
use edge_cdn_store.Common.{
  ◌≡◌, ◌↔◌, ◌++◌, ◌==◌, refl, Bool, true, false, List, [], ◌∷◌, none, some, ok, err, if◌then◌else◌,
  arith,
}
use edge_cdn_store.Common.Text.{Text, codes, text_eq, list_eq}
use edge_cdn_store.Common.Str.{
  to_ascii_lowercase, split_first, contains_char, trim_start_by, trim_end_by,
}
use edge_cdn_store.Common.State.{panicked}
use edge_cdn_store.Inspector.Path.{
  PathBuf, root_dir, parent_dir, normal, component_eq, starts_with, join, pieces_from, components,
  split_last,
}
use edge_cdn_store.Inspector.Listing.{
  is_empty, is_slash, Item, sort_items, parent_href, base_of, href_of, text_cmp,
}
use edge_cdn_store.Inspector.Listing.Links.{IsPlain, link_leads}
use edge_cdn_store.Inspector.Listing.Order.{Adjacent, Behind, sort_items_order}
use edge_cdn_store.Inspector.Files.{Tree, file, handle_req, resolve_under_root}
use edge_cdn_store.Inspector.Files.Contained.{IsLawfulTree}
use edge_cdn_store.Inspector.Routes.{
  Warp, version, contents, cargo_pkg_version, index_page, inspector_routes,
}
use edge_cdn_store.Inspector.Routes.Answers.{Answers, inspector_routes_contained}

abbrev root : PathBuf
root = root_dir ∷ normal (codes "cache") ∷ []

abbrev page_path : PathBuf
page_path = root_dir ∷ normal (codes "cache") ∷ normal (codes "page") ∷ []

abbrev secret_path : PathBuf
secret_path = root_dir ∷ normal (codes "secret") ∷ []

-- Two files, one of them outside of the root; a path with `..` in it has a canonical form.
abbrev is_file : PathBuf → Bool
is_file (root_dir ∷ normal a ∷ normal b ∷ []) = text_eq a (codes "cache")
is_file (root_dir ∷ normal a ∷ []) = text_eq a (codes "secret")
is_file (root_dir ∷ normal a ∷ parent_dir ∷ normal b ∷ []) = true
is_file _ = false

abbrev canonical : PathBuf → PathBuf
canonical (root_dir ∷ normal a ∷ parent_dir ∷ normal b ∷ []) = root_dir ∷ normal b ∷ []
canonical p = p

abbrev tree : Tree
tree = record {
  metadata = λ p. if is_file p then some false else none;
  canonicalize = λ p. some (canonical p);
  read = λ p. if is_file p then some (codes "hello") else none;
  read_dir = λ p. none;
  to_lowercase = to_ascii_lowercase;
  encode = λ s. s;
  mime_type = λ p. codes "text/plain";
}

tree-IsLawful : IsLawfulTree tree
tree-IsLawful = record { read_missing = λ p e. ground arith }

served : handle_req tree root (codes "page") ≡ some (file (codes "hello") (codes "text/plain"))
unfolding handle_req resolve_under_root join pieces_from components starts_with component_eq text_eq
    list_eq
served = refl

escaping : handle_req tree root (codes "../secret") ≡ none
unfolding handle_req resolve_under_root join pieces_from components starts_with component_eq text_eq
    list_eq
escaping = refl

absolute : handle_req tree root (codes "/secret") ≡ none
unfolding handle_req resolve_under_root join pieces_from components starts_with component_eq text_eq
    list_eq
absolute = refl

abbrev items : List Item
items = (codes "dir", true) ∷ (codes "a", false) ∷ (codes "B", false) ∷ []

sorted :
    sort_items to_ascii_lowercase items
    ≡ (codes "B", false) ∷ (codes "a", false) ∷ (codes "dir", true) ∷ []
unfolding sort_items to_ascii_lowercase text_cmp
sorted = refl

sort_items_order_example :
    Adjacent (Behind to_ascii_lowercase) (sort_items to_ascii_lowercase items)
    × Perm (sort_items to_ascii_lowercase items) items
sort_items_order_example = sort_items_order to_ascii_lowercase items

parent : parent_href (codes "ab/cd") ≡ codes "/cache/ab/"
unfolding parent_href split_last split_first
parent = refl

top : parent_href (codes "ab") ≡ codes "/cache/"
unfolding parent_href split_last split_first
top = refl

-- Requests by their segment and what follows it; all of them are GET requests.
abbrev segments : Warp
segments = record {
  Request = Text × Text;
  is_end = λ r. is_empty r.0;
  is_get = λ r. true;
  is_head = λ r. false;
  path = λ segment r. if text_eq segment r.0 then some r.1 else none;
}

routed :
    inspector_routes segments tree root (err panicked) (err panicked) (codes "version", codes "x")
    ≡ some (ok (version cargo_pkg_version))
unfolding inspector_routes text_eq list_eq
routed = refl

shown :
    inspector_routes segments tree root (err panicked) (err panicked) (codes "cache", codes "page")
    ≡ some (ok (contents (file (codes "hello") (codes "text/plain"))))
unfolding inspector_routes handle_req resolve_under_root join pieces_from components starts_with
    component_eq text_eq list_eq
shown = refl

inspector_routes_contained_example :
    Answers segments tree tree-IsLawful root
      (err panicked)
      (err panicked)
      (codes "cache", codes "page")
      (ok (contents (file (codes "hello") (codes "text/plain"))))
inspector_routes_contained_example =
    inspector_routes_contained segments tree tree-IsLawful root (err panicked) (err panicked)
      (codes "cache", codes "page") (ok (contents (file (codes "hello") (codes "text/plain"))))
      shown

index_page_now :
    index_page
    ≡ codes
        "<html>\n                     <head><title>Edge CDN Disk Cache Inspector</title></head>\n                     <body>\n                       <h1>Edge CDN Disk Cache Inspector</h1>\n                       <ul>\n                         <li><a href=\"/version\">Verion</a></li>\n                         <li><a href=\"/health\">Health</a></li>\n                         <li><a href=\"/stats\">Statistics</a></li>\n                         <li><a href=\"/metrics\">Metrics</a></li>\n                         <li><a href=\"/cache\">Contents</a></li>\n                       </ul>\n                     </body>\n                   </html>"
index_page_now = refl

-- A space is encoded.
abbrev encode_spaces : Text → Text
encode_spaces [] = []
encode_spaces (c ∷ s) = (if c == b' ' then codes "%20" else c ∷ []) ++ encode_spaces s

is_component_now : IsPlain (encode_spaces (codes "a b"))
unfolding contains_char text_eq
is_component_now = record { no_slash = refl; one_component = refl }

link_leads_example :
    (tail' : Text) × (href_of encode_spaces
        (base_of (trim_start_by is_slash (codes "ab/cd/")))
        (codes "a b", false)
      ≡ codes "/cache/" ++ tail')
    × (join root tail' ≡ join root (codes "ab/cd/") ++ normal (codes "a%20b") ∷ [])
    × ((join root tail' ≡ join root (codes "ab/cd/") ++ normal (codes "a b") ∷ [])
        ↔ (codes "a%20b" ≡ codes "a b"))
link_leads_example =
    link_leads encode_spaces root (codes "a b") false is_component_now (codes "ab/cd/") refl

href_now :
    href_of encode_spaces (base_of (codes "ab/cd/")) (codes "a b", false)
    ≡ codes "/cache/ab/cd/a%20b"
unfolding href_of base_of trim_end_by
href_now = refl
