-- ===== src/Backuper.antt =====
-- src/flexetl/backuper.h and backuper.cpp: the thread that removes old files from the directories of
-- backups. The file system is a map from directories to their entries.
pub mod Age
pub mod Clean
pub mod Registered
pub mod Removed
mod Tests
use flexetl.Prelude.{
  ℕ, zero, suc, ◌+◌, ◌-◌, ◌*◌, ◌/◌, ◌^◌, Bool, true, false, not, ◌&&◌, ◌||◌, List, [], ◌∷◌, ◌++◌,
  Option, none, some, ltb, if◌then◌else◌,
}
use flexetl.Prelude.Int.{ℤ, pos, negsuc}
use flexetl.Prelude.Words.{Bytes}
use flexetl.StdMap.{Map, find, update, same_key}
use flexetl.Paths.{extension}

-- An entry of a directory: its name, whether it is a directory, and its `last_write_time` in
-- nanoseconds.
pub record Entry : Type 0 where
  pub name : Bytes
  pub is_directory : Bool
  pub write_time : ℕ

abbrev pub Directories : Type 0
Directories = Map (List Entry)

-- `std::set<std::string>`: `insert` and `find`.
unfoldable pub has : Bytes → List Bytes → Bool
has ext [] = false
has ext (e ∷ exts) = same_key ext e || has ext exts

abbrev pub insert_ext : Bytes → List Bytes → List Bytes
insert_ext ext exts = if has ext exts then exts else exts ++ ext ∷ []

-- What a round meets: what `addBackupDir` enqueued, the steady clock and the system clock in
-- nanoseconds, and which names `remove` succeeds for.
pub record Answers : Type 0 where
  pub registers : Option (Bytes × Bytes)
  pub steady_now : ℕ
  pub now : ℕ
  pub removable : Bytes → Bool

pub record State : Type 0 where
  pub backup_dirs : Map (List Bytes)
  pub last_time : ℕ
  pub directories : Directories

abbrev pub hour : ℕ
hour = 3600 * 10 ^ 9

abbrev pub opposite : ℕ → ℤ
opposite zero = pos 0
opposite (suc n) = negsuc n

-- `duration_cast<hours>(now - time).count()`, cut towards zero; negative for a time in the future.
unfoldable pub age_hours : ℕ → ℕ → ℤ
age_hours now time =
    if ltb now time then opposite ((time - now) / hour) else pos ((now - time) / hour)

-- `a > b`
abbrev pub exceeds : ℤ → ℤ → Bool
exceeds (pos a) (pos b) = ltb b a
exceeds (pos a) (negsuc b) = true
exceeds (negsuc a) (pos b) = false
exceeds (negsuc a) (negsuc b) = ltb a b

-- The file is no directory, has one of the extensions, and is more than `clean_time` hours old.
-- `m_cleanTime` is an `int`, which `24 * FLAGS_clean_backup` can make negative.
unfoldable pub is_old : ℤ → ℕ → List Bytes → Entry → Bool
is_old clean_time now exts e =
    not e.is_directory
    && has (extension e.name) exts
    && exceeds (age_hours now e.write_time) clean_time

-- The loop over a directory.
unfoldable pub clean_entries : ℤ → Answers → List Bytes → List Entry → List Entry
clean_entries clean_time a exts [] = []
clean_entries clean_time a exts (e ∷ entries) =
    let rest = clean_entries clean_time a exts entries in
    if is_old clean_time a.now exts e && a.removable e.name then rest else e ∷ rest

-- The directory with this path, if it exists.
unfoldable pub change : Bytes → (List Entry → List Entry) → Directories → Directories
change path f [] = []
change path f ((d, entries) ∷ directories) =
    let rest = change path f directories in
    if same_key d path then (d, f entries) ∷ directories else (d, entries) ∷ rest

-- The loop over `m_backupDirs`.
unfoldable pub clean_all : ℤ → Answers → Map (List Bytes) → Directories → Directories
clean_all clean_time a [] directories = directories
clean_all clean_time a ((path, exts) ∷ dirs) directories =
    clean_all clean_time a dirs (change path (clean_entries clean_time a exts) directories)

-- `m_backupDirs[newPath.first].insert(newPath.second)`
unfoldable pub register : Option (Bytes × Bytes) → Map (List Bytes) → Map (List Bytes)
register none dirs = dirs
register (some (path, ext)) dirs = update [] path (insert_ext ext) dirs

abbrev pub is_some {ℓ} : {A : Type ℓ} → Option A → Bool
is_some none = false
is_some (some a) = true

-- A round of `lifeProc`: it cleans when a directory is new, or an hour has passed.
unfoldable pub round : ℤ → Answers → State → State
round clean_time a s =
    let dirs = register a.registers s.backup_dirs in
    if not (is_some a.registers) && ltb (a.steady_now - s.last_time) hour
    then record s { backup_dirs = dirs }
    else record s {
      backup_dirs = dirs;
      last_time = a.steady_now;
      directories = clean_all clean_time a dirs s.directories;
    }

unfoldable pub rounds : ℤ → List Answers → State → State
rounds clean_time [] s = s
rounds clean_time (a ∷ answers) s = rounds clean_time answers (round clean_time a s)
