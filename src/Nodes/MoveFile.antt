-- ===== src/Nodes/MoveFile.antt =====
-- src/flexetl/nodes.cpp: `Node::moveFile`. The operations of `std::filesystem` are parameters: each
-- gives the files after it and whether it succeeded.
use flexetl.Prelude.{
  ◌≡◌, ◌≢◌, ◌⊎◌, inl, inr, refl, ap, ◌∙◌, Bool, true, false, [], ◌∷◌, Option, if◌then◌else◌,
}
use flexetl.Prelude.Words.{Bytes}

-- The content of each path, `none` where there is no file.
abbrev pub Files : Type 0
Files = Bytes → Option Bytes

module _ (remove : Bytes → Files → Files × Bool) (rename : Bytes → Bytes → Files → Files × Bool)
    (set_time : Bytes → Files → Files × Bool) (join : Bytes → Bytes → Bytes) where
  -- `moveFile`: an empty path removes the file. `join` is `toPath / fileName.filename()`.
  unfoldable pub move_file : Bytes → Bytes → Files → Files × Bool
  move_file [] name files = remove name files
  move_file (b ∷ to_path) name files =
      let backup = join (b ∷ to_path) name in
      let (files', renamed) = rename name backup files in
      if renamed then set_time backup files' else (files', false)

  -- If `rename` moves the content when it succeeds and changes nothing when it fails, and setting
  -- the time changes no content: a file that is moved to a directory is afterwards under its new
  -- name or still under its old one with the content that it had, and if `moveFile` returns true,
  -- under its new name.
  pub move_file-kept :
      ((from to : Bytes) (files : Files)
        → let (files', good) = rename from to files in
          if good then (files' to ≡ files from) else (files' ≡ files))
      → ((path : Bytes) (files : Files) → (set_time path files).0 ≡ files)
      → (to_path name : Bytes) (files : Files) → to_path ≢ []
      → let backup = join to_path name in
        let (files', good) = move_file to_path name files in
        ((files' backup ≡ files name) ⊎ ((good ≡ false) × (files' name ≡ files name)))
  unfolding move_file
  move_file-kept renames sets [] name files h = absurd (h refl)
  move_file-kept renames sets (b ∷ to_path) name files h =
      keep (rename name (join (b ∷ to_path) name) files).0
        (rename name (join (b ∷ to_path) name) files).1
        (renames name (join (b ∷ to_path) name) files)
    where
      keep :
          (files' : Files) (good : Bool)
          → (if good then (files' (join (b ∷ to_path) name) ≡ files name) else (files' ≡ files))
          → let (files'', res) =
              (if good then set_time (join (b ∷ to_path) name) files' else (files', false)) in
            ((files'' (join (b ∷ to_path) name) ≡ files name)
              ⊎ ((res ≡ false) × (files'' name ≡ files name)))
      keep files' true k = inl (
          ap (λ (f : Files). f (join (b ∷ to_path) name)) (sets (join (b ∷ to_path) name) files')
          ∙ k)
      keep files' false k = inr (refl, ap (λ (f : Files). f name) k)
