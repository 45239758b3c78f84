-- ===== src/Inspector/Files.antt =====
-- Which files the inspector serves (src/inspector/display_disk_cache.rs, `handle_req` and
-- `resolve_under_root`).
pub mod Contained
use edge_cdn_store.Common.{ℕ, Bool, true, false, Option, none, some, if◌then◌else◌}
use edge_cdn_store.Common.Text.{Text}
use edge_cdn_store.Disk.Files.{Bytes}
use edge_cdn_store.Utils.{unwrap_or}
use edge_cdn_store.Inspector.Path.{PathBuf, starts_with, join}
use edge_cdn_store.Inspector.Listing.{ReadDir, render_dir_listing}

-- The directories and files that the inspector looks at, which do not change during a request.
-- `none` stands for an error. The rest is what it uses of Unicode, and of the crates urlencoding
-- and mime_guess.
pub record Tree : Type 0 where
  -- `fs::metadata`, for whether the path is a directory.
  pub metadata : PathBuf → Option Bool
  pub canonicalize : PathBuf → Option PathBuf
  pub read : PathBuf → Option Bytes
  pub read_dir : PathBuf → Option ReadDir
  pub to_lowercase : Text → Text
  pub encode : Text → Text
  pub mime_type : PathBuf → Text

-- A page, or the bytes of a file with their type.
pub data Response : Type 0 where
  html : Text → Response
  file : Bytes → Text → Response

module _ (T : Tree) where
  resolved : PathBuf → Option Bool → Option PathBuf
  resolved joined none = some joined
  resolved joined (some is_dir) = T.canonicalize joined

  under : Option PathBuf → Option PathBuf → Option PathBuf
  under none full = none
  under (some root_canon) none = none
  under (some root_canon) (some full) = if starts_with full root_canon then some full else none

  -- Every error of this function becomes the same rejection.
  unfoldable pub resolve_under_root : PathBuf → Text → Option PathBuf
  unfolding resolved under
  resolve_under_root root tail =
      let joined = join root tail in
      under (T.canonicalize root) (resolved joined (T.metadata joined))

  listed : Text → Option ReadDir → Option Text
  listed tail none = none
  listed tail (some entries) = render_dir_listing T.to_lowercase T.encode tail entries

  page_of : Option Text → Option Response
  page_of none = none
  page_of (some text) = some (html text)

  file_of : PathBuf → Option Bytes → Option Response
  file_of path none = none
  file_of path (some bytes) = some (file bytes (T.mime_type path))

  respond : Text → PathBuf → Option Response
  unfolding listed page_of file_of
  respond tail path =
      if unwrap_or (T.metadata path) false
      then page_of (listed tail (T.read_dir path))
      else file_of path (T.read path)

  respond_at : Text → Option PathBuf → Option Response
  unfolding respond
  respond_at tail none = none
  respond_at tail (some path) = respond tail path

  -- `none` is the rejection `not_found`.
  unfoldable pub handle_req : PathBuf → Text → Option Response
  unfolding respond_at
  handle_req root tail = respond_at tail (resolve_under_root root tail)
