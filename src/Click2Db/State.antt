-- ===== src/Click2Db/State.antt =====
-- src/flexetl/click2db.cpp: the state of `Click2DB`, `descibeTable` and `sendTable`. What the
-- database answers is given to the operations.
use flexetl.Prelude.{
  ℕ, Bool, true, false, not, ◌&&◌, ◌||◌, List, [], ◌∷◌, Option, none, some, ◌==◌, if◌then◌else◌,
}
use flexetl.Prelude.Words.{Bytes}
use flexetl.StdMap.{Map, same_key}
use flexetl.ClickTbl.Getters.{Platform}
use flexetl.Click2Db.Convert.{Client}
use flexetl.ClickTbl.Table.{ClickTable}
use flexetl.Json2Click.State.{add_metric}
use flexetl.Click2Db.Block.{Block, Filling, fill_table}

-- An entry of the queue: how often the file failed to be sent, and its name.
abbrev pub Entry : Type 0
Entry = ℕ × Bytes

-- A call of `moveFile`: the directory and the file. With an empty directory the file is removed.
pub record Move : Type 0 where
  pub to_path : Bytes
  pub name : Bytes

abbrev pub removed : Bytes → Move
removed name = record { to_path = []; name = name }

pub record State : Type 0 where
  -- `m_sendFailed` and `m_loadFailed`, empty without the parameter.
  pub send_failed_dir : Bytes
  pub load_failed_dir : Bytes
  -- `m_pClickDB` is there.
  pub connected : Bool
  pub tbl_type : Map Bytes
  pub update_tbl_desc : Bool
  pub empty_counter : ℕ
  pub queue : List Entry
  pub error_db : ℕ
  pub error_fs : ℕ
  pub error_types : ℕ
  pub inserted_rows : ℕ
  -- The calls of `ClickTable::load` and of `moveFile` that ended so far, the last one first.
  pub loads : List Bytes
  pub moves : List Move
  -- Whether undefined behaviour was met: the process is taken to end there.
  pub crashed : Bool

-- What the other threads, the database and the file system do in one round of `lifeProc`: the
-- files that arrive in the queue; whether a connection and a ping succeed; the description of the
-- table, `none` if the query throws; which entry the queue gives, if any, since it keeps no order
-- between threads; the bytes of the file, `none` if `fopen` fails; the description and the insertion
-- while it is sent; and whether `moveFile` succeeds.
pub record Answers : Type 0 where
  pub arrivals : List Bytes
  pub connects : Bool
  pub pings : Bool
  pub description : Option (Map Bytes)
  pub pick : Option ℕ
  pub content : Option Bytes
  pub description_again : Option (Map Bytes)
  pub inserts : Bool
  pub moved : Bool

-- How `sendTable` ended: `failed` if it threw, `crashed` if undefined behaviour was met.
pub data Sending : Type 0 where
  sent failed crashed : Sending

-- `m_tblType == tblType`
unfoldable pub same_types : Map Bytes → Map Bytes → Bool
same_types [] [] = true
same_types ((k, v) ∷ m) ((j, w) ∷ n) =
    let rest = same_types m n in same_key k j && same_key v w && rest
same_types _ _ = false

module _ {Column : Type 0} (p : Platform) (client : Client Column) where
  -- `block.GetRowCount()`
  abbrev pub block_rows : Block Column → ℕ
  block_rows [] = 0
  block_rows ((name, column) ∷ block) = client.size column

  -- The end of `sendTable`.
  unfoldable pub insert_block : Bool → ClickTable → Block Column → State → State × Sending
  insert_block inserts table block s =
      if block_rows block == 0
      then (s, failed)
      else if inserts
      then (record s { inserted_rows = add_metric s.inserted_rows table.row_count }, sent)
      else (s, failed)

  -- A table that was filled: it goes on to be inserted, unless `AppendColumn` threw.
  unfoldable pub insert_filled : Bool → ClickTable → Filling Column → State → State × Sending
  insert_filled inserts table f s =
      let s' = record s { error_types = add_metric s.error_types f.errors } in
      if f.crashed
      then (s', crashed)
      else if f.thrown
      then (s', failed)
      else insert_block inserts table f.block s'

  -- `sendTable`: with a column that the description does not have, the description is asked for
  -- again, and the block filled again if it changed.
  unfoldable pub send_table : Answers → ClickTable → State → State × Sending
  send_table a table s =
      let f = fill_table p client s.tbl_type table.tbl in
      if f.unknown_types && not (f.thrown || f.crashed)
      then (let s' = record s { error_types = add_metric s.error_types f.errors } in
          elim a.description_again [
            | none ↦ (s', failed)
            | some types ↦
                if same_types types s.tbl_type
                then insert_block a.inserts table f.block (record s' { tbl_type = types })
                else insert_filled a.inserts table (fill_table p client types table.tbl)
                    (record s' { tbl_type = types })
          ])
      else insert_filled a.inserts table f s
