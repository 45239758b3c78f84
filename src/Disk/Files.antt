-- ===== src/Disk/Files.antt =====
-- The file system below the cache (tokio::fs and std::fs), as an interface: its operations on an
-- unknown state, each of which may fail at any call, and what the cache relies on.
pub mod Memory
use edge_cdn_store.Common.{
  ℕ, ◌+◌, ◌<◌, ◌≤◌, ◌≡◌, ◌≢◌, Bool, true, Option, none, some, List, [], ◌∷◌, ◌++◌, Result, ok, err,
  is_ok, length, take, drop, ◌⊎◌,
}
use edge_cdn_store.Common.Text.{Text}

abbrev pub Bytes : Type 0
Bytes = List ℕ

-- A path is the list of its components, the last one first. `join` adds one component, which is
-- neither absolute nor holds a separator.
abbrev pub FilePath : Type 0
FilePath = List Text

abbrev pub join : FilePath → Text → FilePath
join dir name = name ∷ dir

-- The `ErrorKind`s that the code tells apart.
pub data IoError : Type 0 where
  not_found other : IoError

abbrev pub Io : Type 0 → Type 0 → Type 0
Io State A = State → Result IoError A × State

pub record FileSystem : Type 1 where
  pub State : Type 0
  -- A file that is open for reading.
  pub Handle : Type 0
  -- What a path names: the bytes of a regular file.
  pub file : State → FilePath → Option Bytes
  -- The bytes behind an open file, and its read position.
  pub content : State → Handle → Bytes
  pub cursor : State → Handle → ℕ
  pub create_dir_all : FilePath → Io State (Unit {0})
  -- `fs::read`: the whole file.
  pub read : FilePath → Io State Bytes
  pub open_file : FilePath → Io State Handle
  -- `file.metadata().await` followed by `len()`.
  pub file_len : Handle → Io State ℕ
  pub seek : Handle → ℕ → Io State (Unit {0})
  -- `file.read(&mut buf)` for a buffer of the given length.
  pub read_some : Handle → ℕ → Io State Bytes
  -- `OpenOptions::new().append(true).open(path)`, and `write_all` to the file opened so.
  pub open_append : FilePath → Io State (Unit {0})
  pub append_all : FilePath → Bytes → Io State (Unit {0})
  pub flush : FilePath → Io State (Unit {0})
  -- `File::create`, and `io::copy` of the first file to the second, which was just created.
  pub create : FilePath → Io State (Unit {0})
  pub copy : FilePath → FilePath → Io State (Unit {0})
  -- `fs::write`
  pub write : FilePath → Bytes → Io State (Unit {0})
  pub rename : FilePath → FilePath → Io State (Unit {0})
  -- `fs::metadata(path)` followed by `len()`.
  pub metadata_len : FilePath → Io State ℕ
  pub remove_file : FilePath → Io State (Unit {0})
  pub remove_dir : FilePath → Io State (Unit {0})
  -- `Path::exists`
  pub exists : FilePath → State → Bool

-- What the operations do to the files. A failed write may leave anything in its own file, and
-- touches no other.
pub record IsLawful (F : FileSystem) : Type 0 where
  pub file-create_dir_all :
      (d p : FilePath) (s : F.State) → F.file (F.create_dir_all d s).1 p ≡ F.file s p
  pub read_ok :
      (p : FilePath) (s : F.State) (b : Bytes) → (F.read p s).0 ≡ ok b → F.file s p ≡ some b
  pub file-read : (q p : FilePath) (s : F.State) → F.file (F.read q s).1 p ≡ F.file s p
  pub open_file_ok :
      (p : FilePath) (s : F.State) (h : F.Handle)
      → (F.open_file p s).0 ≡ ok h
      → (F.file s p ≡ some (F.content (F.open_file p s).1 h)) × (F.cursor (F.open_file p s).1 h ≡ 0)
  pub file-open_file : (q p : FilePath) (s : F.State) → F.file (F.open_file q s).1 p ≡ F.file s p
  pub file_len_ok :
      (h : F.Handle) (s : F.State) (n : ℕ) → (F.file_len h s).0 ≡ ok n → length (F.content s h) ≡ n
  pub content-file_len :
      (g h : F.Handle) (s : F.State) → F.content (F.file_len g s).1 h ≡ F.content s h
  pub cursor-file_len :
      (g h : F.Handle) (s : F.State) → F.cursor (F.file_len g s).1 h ≡ F.cursor s h
  pub file-file_len :
      (h : F.Handle) (p : FilePath) (s : F.State) → F.file (F.file_len h s).1 p ≡ F.file s p
  pub content-seek :
      (g h : F.Handle) (n : ℕ) (s : F.State) → F.content (F.seek g n s).1 h ≡ F.content s h
  pub file-seek :
      (h : F.Handle) (n : ℕ) (p : FilePath) (s : F.State) → F.file (F.seek h n s).1 p ≡ F.file s p
  pub cursor-seek :
      (h : F.Handle) (n : ℕ) (s : F.State)
      → is_ok (F.seek h n s).0 ≡ true
      → F.cursor (F.seek h n s).1 h ≡ n
  pub content-read_some :
      (g h : F.Handle) (n : ℕ) (s : F.State) → F.content (F.read_some g n s).1 h ≡ F.content s h
  pub file-read_some :
      (h : F.Handle) (n : ℕ) (p : FilePath) (s : F.State)
      → F.file (F.read_some h n s).1 p ≡ F.file s p
  -- A read gives the next bytes, possibly fewer than asked for, and none only at the end.
  pub read_some_ok :
      (h : F.Handle) (n : ℕ) (s : F.State) (b : Bytes)
      → (F.read_some h n s).0 ≡ ok b
      → (b ≡ take (length b) (drop (F.cursor s h) (F.content s h)))
        × (length b ≤ n)
        × (F.cursor (F.read_some h n s).1 h ≡ F.cursor s h + length b)
        × ((0 < length b) ⊎ (n ≡ 0) ⊎ (length (F.content s h) ≤ F.cursor s h))
  pub file-open_append :
      (q p : FilePath) (s : F.State) → F.file (F.open_append q s).1 p ≡ F.file s p
  pub append_all_ok :
      (p : FilePath) (d old : Bytes) (s : F.State)
      → is_ok (F.append_all p d s).0 ≡ true
      → F.file s p ≡ some old
      → F.file (F.append_all p d s).1 p ≡ some (old ++ d)
  pub file-append_all_ne :
      (p q : FilePath) (d : Bytes) (s : F.State)
      → q ≢ p
      → F.file (F.append_all p d s).1 q ≡ F.file s q
  pub file-flush : (q p : FilePath) (s : F.State) → F.file (F.flush q s).1 p ≡ F.file s p
  pub create_ok :
      (p : FilePath) (s : F.State)
      → is_ok (F.create p s).0 ≡ true
      → F.file (F.create p s).1 p ≡ some []
  pub file-create_ne :
      (p q : FilePath) (s : F.State) → q ≢ p → F.file (F.create p s).1 q ≡ F.file s q
  pub copy_ok :
      (p q : FilePath) (s : F.State)
      → is_ok (F.copy p q s).0 ≡ true
      → F.file s q ≡ some []
      → F.file (F.copy p q s).1 q ≡ F.file s p
  pub file-copy_ne :
      (p q r : FilePath) (s : F.State) → r ≢ q → F.file (F.copy p q s).1 r ≡ F.file s r
  pub write_ok :
      (p : FilePath) (d : Bytes) (s : F.State)
      → is_ok (F.write p d s).0 ≡ true
      → F.file (F.write p d s).1 p ≡ some d
  pub file-write_ne :
      (p q : FilePath) (d : Bytes) (s : F.State) → q ≢ p → F.file (F.write p d s).1 q ≡ F.file s q
  pub rename_ok :
      (p q : FilePath) (s : F.State)
      → is_ok (F.rename p q s).0 ≡ true
      → F.file (F.rename p q s).1 q ≡ F.file s p
  pub rename_gone :
      (p q : FilePath) (s : F.State)
      → is_ok (F.rename p q s).0 ≡ true
      → p ≢ q
      → F.file (F.rename p q s).1 p ≡ none
  pub file-rename_ne :
      (p q r : FilePath) (s : F.State) → r ≢ p → r ≢ q → F.file (F.rename p q s).1 r ≡ F.file s r
  pub rename_err :
      (p q r : FilePath) (s : F.State) (e : IoError)
      → (F.rename p q s).0 ≡ err e
      → F.file (F.rename p q s).1 r ≡ F.file s r
  pub metadata_len_ok :
      (p : FilePath) (s : F.State) (n : ℕ) (b : Bytes)
      → (F.metadata_len p s).0 ≡ ok n
      → F.file s p ≡ some b
      → length b ≡ n
  pub file-metadata_len :
      (q p : FilePath) (s : F.State) → F.file (F.metadata_len q s).1 p ≡ F.file s p
  pub remove_file_ok :
      (p : FilePath) (s : F.State)
      → is_ok (F.remove_file p s).0 ≡ true
      → (F.file s p ≢ none) × (F.file (F.remove_file p s).1 p ≡ none)
  pub remove_file_err :
      (p q : FilePath) (s : F.State) (e : IoError)
      → (F.remove_file p s).0 ≡ err e
      → F.file (F.remove_file p s).1 q ≡ F.file s q
  pub file-remove_file_ne :
      (p q : FilePath) (s : F.State) → q ≢ p → F.file (F.remove_file p s).1 q ≡ F.file s q
  pub file-remove_dir : (d p : FilePath) (s : F.State) → F.file (F.remove_dir d s).1 p ≡ F.file s p
  -- A file that is open stays readable when its name is removed.
  pub content-metadata_len :
      (p : FilePath) (h : F.Handle) (s : F.State)
      → F.content (F.metadata_len p s).1 h ≡ F.content s h
  pub content-remove_file :
      (p : FilePath) (h : F.Handle) (s : F.State)
      → F.content (F.remove_file p s).1 h ≡ F.content s h
  pub content-remove_dir :
      (p : FilePath) (h : F.Handle) (s : F.State) → F.content (F.remove_dir p s).1 h ≡ F.content s h
  pub cursor-metadata_len :
      (p : FilePath) (h : F.Handle) (s : F.State) → F.cursor (F.metadata_len p s).1 h ≡ F.cursor s h
  pub cursor-remove_file :
      (p : FilePath) (h : F.Handle) (s : F.State) → F.cursor (F.remove_file p s).1 h ≡ F.cursor s h
  pub cursor-remove_dir :
      (p : FilePath) (h : F.Handle) (s : F.State) → F.cursor (F.remove_dir p s).1 h ≡ F.cursor s h

-- A state from which existing files can be opened and read without an error.
pub record IsReliable (F : FileSystem) (IsHealthy : F.State → Type 0) : Type 0 where
  pub create_dir_all-IsHealthy :
      (d : FilePath) (s : F.State)
      → IsHealthy s
      → IsHealthy (F.create_dir_all d s).1 × (is_ok (F.create_dir_all d s).0 ≡ true)
  pub read-IsHealthy :
      (p : FilePath) (s : F.State) (b : Bytes)
      → IsHealthy s
      → F.file s p ≡ some b
      → IsHealthy (F.read p s).1 × ((F.read p s).0 ≡ ok b)
  pub open_file-IsHealthy :
      (p : FilePath) (s : F.State) (b : Bytes)
      → IsHealthy s
      → F.file s p ≡ some b
      → IsHealthy (F.open_file p s).1 × (is_ok (F.open_file p s).0 ≡ true)
  pub file_len-IsHealthy :
      (h : F.Handle) (s : F.State)
      → IsHealthy s
      → IsHealthy (F.file_len h s).1 × (is_ok (F.file_len h s).0 ≡ true)
  pub seek-IsHealthy :
      (h : F.Handle) (n : ℕ) (s : F.State)
      → IsHealthy s
      → IsHealthy (F.seek h n s).1 × (is_ok (F.seek h n s).0 ≡ true)
  pub read_some-IsHealthy :
      (h : F.Handle) (n : ℕ) (s : F.State)
      → IsHealthy s
      → IsHealthy (F.read_some h n s).1 × (is_ok (F.read_some h n s).0 ≡ true)
