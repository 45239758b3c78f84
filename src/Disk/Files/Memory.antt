-- ===== src/Disk/Files/Memory.antt =====
-- A file system in memory that meets the laws, for tests. A script of faults makes any call fail
-- or a read come short; without one every call succeeds where the file exists.
use edge_cdn_store.Common.{
  ℕ, suc, ◌+◌, ◌≡◌, ◌⊎◌, ◌<◌, ◌≤◌, Bool, true, false, Option, none, some, List, [], ◌∷◌, ◌++◌, ok,
  err, length, take, drop, min, arith, ◌==◌, if◌then◌else◌,
}
use edge_cdn_store.Common.Text.{text_eq, text_eq_iff, list_eq, list_eq_iff}
use edge_cdn_store.Disk.Files.{
  Bytes, FilePath, not_found, other, Io, FileSystem, IsLawful, IsReliable,
}
use mathlib.Core.Logic.{◌↔◌}
use edge_cdn_store.Common.{length-take, length-drop, take-length-take, sym}

pub data Fault : Type 0 where
  fine fails : Fault
  short : ℕ → Fault

-- An open file keeps the bytes that it was opened with.
pub record Disk : Type 0 where
  pub named : FilePath → Option Bytes
  pub next : ℕ
  pub opened : ℕ → Bytes
  pub positions : ℕ → ℕ
  pub script : List Fault

unfoldable pub path_eq : FilePath → FilePath → Bool
unfolding list_eq text_eq
path_eq = list_eq text_eq

pub path_eq_iff : (p q : FilePath) → (path_eq p q ≡ true) ↔ (p ≡ q)
unfolding path_eq
path_eq_iff = list_eq_iff text_eq text_eq_iff

abbrev put : FilePath → Option Bytes → Disk → Disk
put p b d = record d { named = λ q. if path_eq q p then b else d.named q }

abbrev move : ℕ → ℕ → Disk → Disk
move h n d = record d { positions = λ g. if g == h then n else d.positions g }

abbrev next_fault : List Fault → Fault
next_fault [] = fine
next_fault (f ∷ fs) = f

abbrev later : List Fault → List Fault
later [] = []
later (f ∷ fs) = fs

-- One call: the next fault is taken from the script, and a failing call changes nothing.
abbrev attempt : {A : Type 0} → Fault → Io Disk A → Io Disk A
attempt fails op d = (err other, d)
attempt fine op d = op d
attempt (short n) op d = op d

abbrev call : {A : Type 0} → Io Disk A → Io Disk A
call op d = attempt (next_fault d.script) op (record d { script = later d.script })

abbrev on_file : {A : Type 0} → FilePath → (Bytes → Io Disk A) → Io Disk A
on_file p k d = elim (d.named p) [ none ↦ (err not_found, d) | some b ↦ k b d ]

abbrev done : Io Disk (Unit {0})
done d = (ok tt, d)

abbrev chunk : Fault → ℕ → ℕ
chunk (short k) n = min (suc k) n
chunk _ n = n

abbrev read_now : Fault → ℕ → ℕ → Io Disk Bytes
read_now f h n d =
    let b = take (chunk f n) (drop (d.positions h) (d.opened h)) in
    (ok b, move h (d.positions h + length b) d)

abbrev is_file : Option Bytes → Bool
is_file none = false
is_file (some b) = true

abbrev pub memory : FileSystem
memory = record {
  State = Disk;
  Handle = ℕ;
  file = λ d. d.named;
  content = λ d. d.opened;
  cursor = λ d. d.positions;
  create_dir_all = λ p. call done;
  read = λ p. call (on_file p (λ b d. (ok b, d)));
  open_file = λ p. call (
      on_file p (λ b d. (
        ok d.next,
        record d {
          next = suc d.next;
          opened = λ g. if g == d.next then b else d.opened g;
          positions = λ g. if g == d.next then 0 else d.positions g;
        },
      )));
  file_len = λ h. call (λ d. (ok (length (d.opened h)), d));
  seek = λ h n. call (λ d. (ok tt, move h n d));
  read_some = λ h n d. call (read_now (next_fault d.script) h n) d;
  open_append = λ p. call (on_file p (λ b. done));
  append_all = λ p x. call (on_file p (λ b d. (ok tt, put p (some (b ++ x)) d)));
  flush = λ p. call done;
  create = λ p. call (λ d. (ok tt, put p (some []) d));
  copy = λ p q. call (on_file p (λ b d. (ok tt, put q (some b) d)));
  write = λ p x. call (λ d. (ok tt, put p (some x) d));
  rename = λ p q. call (on_file p (λ b d. (ok tt, put q (some b) (put p none d))));
  metadata_len = λ p. call (on_file p (λ b d. (ok (length b), d)));
  remove_file = λ p. call (on_file p (λ b d. (ok tt, put p none d)));
  remove_dir = λ p. call done;
  exists = λ p d. is_file (d.named p);
}

chunk_bounds : (f : Fault) (n : ℕ) → (chunk f n ≤ n) × ((n ≡ 0) ⊎ (0 < chunk f n))
chunk_bounds fine n = omega arith
chunk_bounds fails n = omega arith
chunk_bounds (short k) n = omega arith

read_now_lem :
    (f : Fault) (n : ℕ) (rest : Bytes)
    → let b = take (chunk f n) rest in
      (b ≡ take (length b) rest) × (length b ≤ n) × ((0 < length b) ⊎ (n ≡ 0) ⊎ (length rest ≡ 0))
read_now_lem f n rest = (
  sym (take-length-take (chunk f n) rest),
  omega (arith, length-take (chunk f n) rest, chunk_bounds f n),
  omega (arith, length-take (chunk f n) rest, chunk_bounds f n),
)

-- The laws hold of it.
pub memory-IsLawful : IsLawful memory
memory-IsLawful = record {
  file-create_dir_all = λ d p s. ground arith;
  read_ok = λ p s b e. ground arith;
  file-read = λ q p s. ground arith;
  open_file_ok = λ p s h e. ground arith;
  file-open_file = λ q p s. ground arith;
  file_len_ok = λ h s n e. ground arith;
  content-file_len = λ g h s. ground arith;
  cursor-file_len = λ g h s. ground arith;
  file-file_len = λ h p s. ground arith;
  content-seek = λ g h n s. ground arith;
  file-seek = λ h n p s. ground arith;
  cursor-seek = λ h n s e. ground arith;
  content-read_some = λ g h n s. ground arith;
  file-read_some = λ h n p s. ground arith;
  read_some_ok = λ h n s b e. ground (
    arith,
    read_now_lem (next_fault s.script) n (drop (s.positions h) (s.opened h)),
    length-drop (s.positions h) (s.opened h),
  );
  file-open_append = λ q p s. ground arith;
  append_all_ok = λ p d old s e e'. ground (arith, path_eq_iff p p);
  file-append_all_ne = λ p q d s e. ground (arith, path_eq_iff q p);
  file-flush = λ q p s. ground arith;
  create_ok = λ p s e. ground (arith, path_eq_iff p p);
  file-create_ne = λ p q s e. ground (arith, path_eq_iff q p);
  copy_ok = λ p q s e e'. ground (arith, path_eq_iff q q);
  file-copy_ne = λ p q r s e. ground (arith, path_eq_iff r q);
  write_ok = λ p d s e. ground (arith, path_eq_iff p p);
  file-write_ne = λ p q d s e. ground (arith, path_eq_iff q p);
  rename_ok = λ p q s e. ground (arith, path_eq_iff q q);
  rename_gone = λ p q s e n. ground (arith, path_eq_iff p q, path_eq_iff p p);
  file-rename_ne = λ p q r s e e'. ground (arith, path_eq_iff r p, path_eq_iff r q);
  rename_err = λ p q r s x e. ground arith;
  metadata_len_ok = λ p s n b e e'. ground arith;
  file-metadata_len = λ q p s. ground arith;
  remove_file_ok = λ p s e. ground (arith, path_eq_iff p p);
  remove_file_err = λ p q s x e. ground arith;
  file-remove_file_ne = λ p q s e. ground (arith, path_eq_iff q p);
  file-remove_dir = λ d p s. ground arith;
  content-metadata_len = λ p h s. ground arith;
  content-remove_file = λ p h s. ground arith;
  content-remove_dir = λ p h s. ground arith;
  cursor-metadata_len = λ p h s. ground arith;
  cursor-remove_file = λ p h s. ground arith;
  cursor-remove_dir = λ p h s. ground arith;
}

-- With no faults to come, nothing fails.
abbrev pub HasNoFaults : Disk → Type 0
HasNoFaults d = d.script ≡ []

pub memory-IsReliable : IsReliable memory HasNoFaults
memory-IsReliable = record {
  create_dir_all-IsHealthy = λ p s e. ground arith;
  read-IsHealthy = λ p s b e f. ground arith;
  open_file-IsHealthy = λ p s b e f. ground arith;
  file_len-IsHealthy = λ h s e. ground arith;
  seek-IsHealthy = λ h n s e. ground arith;
  read_some-IsHealthy = λ h n s e. ground arith;
}
