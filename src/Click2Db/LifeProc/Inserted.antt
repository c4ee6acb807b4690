-- ===== src/Click2Db/LifeProc/Inserted.antt =====
-- The metric of the inserted rows, and the files that are removed.
pub mod SendTable
use flexetl.Prelude.{ℕ, ◌+◌, ◌%◌, ◌^◌, ◌≡◌, false, List, [], ◌∷◌, Option, some, if◌then◌else◌}
use flexetl.Prelude.Words.{Bytes}
use flexetl.Queue.{dequeue}
use flexetl.ClickTbl.Getters.{Platform}
use flexetl.ClickTbl.Load.{load}
use flexetl.ClickTbl.Table
use flexetl.Click2Db.Convert.{Client}
use flexetl.Click2Db.Block.{Block, Filling, fill_table}
use flexetl.Click2Db.State.{
  State, Answers, Entry, Move, removed, same_types, insert_block, insert_filled,
}
use flexetl.Click2Db.LifeProc.{do_proc, is_empty, round}
use flexetl.Click2Db.LifeProc.Inserted.SendTable.{failed_dirs}

-- The rows that `load` finds in a file, and in those of some moves that removed one.
abbrev pub rows_in : Option Bytes → ℕ
rows_in content = (load content Table.empty).0.row_count

unfoldable pub removed_rows : (Bytes → Option Bytes) → List Move → ℕ
removed_rows files [] = 0
removed_rows files (m ∷ ms) =
    let rest = removed_rows files ms in
    if is_empty m.to_path then rows_in (files m.name) + rest else rest

-- Both directories have a name.
abbrev AreNamed : Bytes × Bytes → Type 0
AreNamed (send_failed_dir, load_failed_dir) =
    (is_empty send_failed_dir ≡ false) × (is_empty load_failed_dir ≡ false)

-- The metric is the rows of the removed files.
abbrev Accounted : (Bytes → Option Bytes) → State → Type 0
Accounted files s =
    (s.inserted_rows ≡ removed_rows files s.moves % 2 ^ 64) × AreNamed (failed_dirs s)

module _ {Column : Type 0} (p : Platform) (client : Client Column)
    (files : Bytes → Option Bytes) where
  -- What is read in a round is the file that the queue gives.
  abbrev pub Reads : Answers → State → Type 0
  Reads a s =
      (e : Entry) (rest : List Entry)
      → dequeue a.pick (do_proc a.arrivals s).queue ≡ some (e, rest)
      → a.content ≡ files e.1

  unfoldable pub AllRead : List Answers → State → Type 0
  AllRead [] s = Unit
  AllRead (a ∷ answers) s = Reads a s × AllRead answers (round p client a s)
