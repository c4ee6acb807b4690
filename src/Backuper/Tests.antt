-- ===== src/Backuper/Tests.antt =====
-- src/flexetl/backuper.cpp on a small directory.
use flexetl.Prelude.{◌*◌, ◌^◌, ◌≡◌, refl, true, false, [], ◌∷◌, some}
use flexetl.Prelude.Int.{pos, negsuc}
use flexetl.StdMap.{find, update}
use flexetl.StdMap.Key.{compare_bytes}
use flexetl.Paths.{extension, from_last_dot}
use flexetl.Backuper.{
  Entry, Answers, State, hour, age_hours, is_old, has, clean_entries, change, clean_all, register,
  round, rounds,
}

-- The files "a.j" and "a.k" of the first moment.
abbrev old : Entry
old = record { name = b'a' ∷ b'.' ∷ b'j' ∷ []; is_directory = false; write_time = 0 }

abbrev other : Entry
other = record old { name = b'a' ∷ b'.' ∷ b'k' ∷ [] }

abbrev start : State
start = record { backup_dirs = []; last_time = 0; directories = (b'd' ∷ [], old ∷ other ∷ []) ∷ [] }

-- Four hours later the directory is registered for ".j".
abbrev four_hours : Answers
four_hours = record {
  registers = some (b'd' ∷ [], b'.' ∷ b'j' ∷ []);
  steady_now = 0;
  now = 4 * 3600 * 10 ^ 9;
  removable = λ name. true;
}

-- Before that it is registered for ".k".
abbrev at_once : Answers
at_once = record four_hours { registers = some (b'd' ∷ [], b'.' ∷ b'k' ∷ []); now = 0 }

cleaned : find (b'd' ∷ []) (round (pos 3) four_hours start).directories ≡ some (other ∷ [])
unfolding round register update clean_all change clean_entries is_old age_hours has extension
    from_last_dot find compare_bytes
cleaned = refl

-- What was registered before stays so.
both_cleaned :
    find (b'd' ∷ []) (round (pos 3) four_hours (rounds (pos 3) (at_once ∷ []) start)).directories
    ≡ some []
unfolding round rounds register update clean_all change clean_entries is_old age_hours has extension
    from_last_dot find compare_bytes
both_cleaned = refl

-- A clean time of -2 hours removes a file of one hour from now.
removed_from_later :
    is_old (negsuc 1) 0 ((b'.' ∷ b'j' ∷ []) ∷ []) (record old { write_time = hour }) ≡ true
unfolding is_old age_hours has extension from_last_dot compare_bytes
removed_from_later = refl
