-- ===== src/Backuper/Removed.antt =====
-- What a round of `Backuper` removes.
use flexetl.Prelude.{
  ◌+◌, ◌-◌, ◌*◌, ◌^◌, ◌≤◌, ◌≢◌, ◌≡◌, ◌⊎◌, Bool, true, false, not, ◌&&◌, List, [], ◌∷◌, Option, none,
  some, ltb,
}
use flexetl.Prelude.Int.{ℤ}
use flexetl.Prelude.Words.{Bytes}
use flexetl.Backuper.{Entry, Answers, State, is_old, is_some, hour}
use flexetl.Paths.{extension}
use flexetl.Backuper.Registered.{Registered}
use flexetl.Backuper.Age.{IsOlder}

-- The entry is one of these.
abbrev pub In : Entry → List Entry → Type 0
In e [] = ⊥
In e (x ∷ entries) = (e ≡ x) ⊎ In e entries

abbrev pub entries_of : Option (List Entry) → List Entry
entries_of none = []
entries_of (some entries) = entries

abbrev gone : ℤ → Answers → List Bytes → Entry → Bool
gone clean_time a exts e = is_old clean_time a.now exts e && a.removable e.name

abbrev gone_from : ℤ → Answers → Option (List Bytes) → Entry → Bool
gone_from clean_time a none e = false
gone_from clean_time a (some exts) e = gone clean_time a exts e

-- A round cleans: a directory came, or an hour has passed.
abbrev pub Cleans : Answers → State → Type 0
Cleans a s = (a.registers ≢ none) ⊎ (s.last_time + 3600 * 10 ^ 9 ≤ a.steady_now)

-- What a round removes from a directory, after some other rounds: in a round that cleans, what is no
-- directory, has an extension registered for the directory in this or an earlier round, is old, and
-- can be removed.
abbrev pub IsRemoved : ℤ → List Answers → Answers → State → Bytes → Entry → Type 0
IsRemoved clean_time answers a s d e =
    Cleans a s
    × (e.is_directory ≡ false)
    × Registered d (extension e.name) (a ∷ answers)
    × IsOlder clean_time a.now e.write_time
    × (a.removable e.name ≡ true)

-- Whether a round cleans.
abbrev cleans : Answers → State → Bool
cleans a s = not (not (is_some a.registers) && ltb (a.steady_now - s.last_time) hour)
