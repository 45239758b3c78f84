-- ===== src/Inspector/Files/Contained.antt =====
-- Nothing outside the root of the cache is served.
use edge_cdn_store.Common.{
  ◌≡◌, ◌≢◌, inl, inr, true, false, none, some, arith, Option-cases, Bool-cases,
}
use edge_cdn_store.Common.Text.{Text}
use edge_cdn_store.Disk.Files.{Bytes}
use edge_cdn_store.Inspector.Path.{PathBuf, starts_with, join}
use edge_cdn_store.Inspector.Listing.{ReadDir, render_dir_listing}
use edge_cdn_store.Inspector.Files.{
  Tree, Response, html, file, resolve_under_root, respond, handle_req,
}

-- A path of which the metadata cannot be read cannot be read either.
pub record IsLawfulTree (T : Tree) : Type 0 where
  pub read_missing : (p : PathBuf) → T.metadata p ≡ none → T.read p ≡ none

-- The response is the file at this path, or the page for the directory at it.
pub data Shows (T : Tree) (tail : Text) (path : PathBuf) (r : Response) : Type 0 where
  shows_file :
      (bytes : Bytes)
      → T.metadata path ≢ some true
      → T.read path ≡ some bytes
      → r ≡ file bytes (T.mime_type path)
      → Shows T tail path r
  shows_dir :
      (entries : ReadDir) (text : Text)
      → T.metadata path ≡ some true
      → T.read_dir path ≡ some entries
      → render_dir_listing T.to_lowercase T.encode tail entries ≡ some text
      → r ≡ html text
      → Shows T tail path r

module _ (T : Tree) (L : IsLawfulTree T) where
  respond-Shows :
      (tail : Text) (path : PathBuf) (r : Response)
      → respond T tail path ≡ some r
      → Shows T tail path r
  unfolding respond
  respond-Shows tail path r e = elim (Option-cases (T.metadata path)) [
    | inl missing ↦ absurd (ground (arith, L.read_missing path missing))
    | inr (false, found) ↦ elim (Option-cases (T.read path)) [
      | inl failed ↦ absurd (ground arith)
      | inr (bytes, got) ↦ shows_file bytes (λ q. cc (found, q)) got (ground arith)
    ]
    | inr (true, found) ↦ elim (Option-cases (T.read_dir path)) [
      | inl failed ↦ absurd (ground arith)
      | inr (entries, got) ↦
          elim (Option-cases (render_dir_listing T.to_lowercase T.encode tail entries)) [
            | inl failed ↦ absurd (ground arith)
            | inr (text, made) ↦ shows_dir entries text found got made (ground arith)
          ]
    ]
  ]

  no_response :
      (path : PathBuf) (tail : Text) (r : Response)
      → T.metadata path ≡ none
      → respond T tail path ≢ some r
  unfolding respond
  no_response path tail r missing e = ground (arith, L.read_missing path missing)

  -- What is served is the file or the directory at the canonical path of the joined path, and this
  -- is below the canonical path of the root, however the tail is written.
  pub handle_req_contained :
      (root : PathBuf) (tail : Text) (r : Response)
      → handle_req T root tail ≡ some r
      → (path : PathBuf) × (root_canon : PathBuf) × (T.canonicalize root ≡ some root_canon)
        × (T.canonicalize (join root tail) ≡ some path)
        × (starts_with path root_canon ≡ true)
        × Shows T tail path r
  unfolding handle_req resolve_under_root
  handle_req_contained root tail r e =
      let joined = join root tail in
      elim (Option-cases (T.canonicalize root)) [
        | inl failed ↦ absurd (ground arith)
        | inr (root_canon, rooted) ↦ elim (Option-cases (T.metadata joined)) [
          | inl missing ↦ absurd (no_response joined tail r missing (ground arith))
          | inr (is_dir, found) ↦ elim (Option-cases (T.canonicalize joined)) [
            | inl failed ↦ absurd (ground arith)
            | inr (path, canon) ↦ elim (Bool-cases (starts_with path root_canon)) [
              | inl inside ↦ (
                path,
                root_canon,
                rooted,
                canon,
                inside,
                respond-Shows tail path r (ground arith),
              )
              | inr outside ↦ absurd (ground arith)
            ]
          ]
        ]
      ]
