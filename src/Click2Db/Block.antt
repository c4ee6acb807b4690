-- ===== src/Click2Db/Block.antt =====
-- src/flexetl/click2db.cpp: `fillTable` in `sendTable`. A `Block` of the client library
-- (contrib/clickhouse-cpp) is its columns with their names; `AppendColumn` throws on a column of
-- another number of rows.
pub mod Fill
pub mod Aligned
use flexetl.Prelude.{
  ℕ, ◌+◌, Bool, true, false, ◌||◌, List, [], ◌∷◌, ◌++◌, Option, none, some, ◌==◌, if◌then◌else◌,
}
use flexetl.Prelude.Words.{Bytes}
use flexetl.StdMap.{Map, find}
use flexetl.ClickTbl.Getters.{Platform}
use flexetl.Click2Db.Convert.{Client, column_to_click_column}
use flexetl.Result.{Result, ok, throws, fault, out_of_fuel}
use flexetl.ClickTbl.Value.{Value, array}
use flexetl.ClickTbl.Column.{ClickColumn}

abbrev pub Block : Type 0 → Type 0
Block Column = List (Bytes × Column)

-- What `fillTable` has done so far: the block, `hasUnknownTypes`, the errors that it counted in
-- `g_ErrorTypes`, whether `AppendColumn` threw, and whether undefined behaviour was met.
pub record Filling (Column : Type 0) : Type 0 where
  pub block : Block Column
  pub unknown_types : Bool
  pub errors : ℕ
  pub thrown : Bool
  pub crashed : Bool

module _ {Column : Type 0} (p : Platform) (client : Client Column) where
  abbrev pub fits : Column → Block Column → Bool
  fits column [] = true
  fits column ((name, first) ∷ block) = client.size column == client.size first

  -- `block.AppendColumn(name, column)`
  unfoldable pub append_column : Bytes → Column → Filling Column → Filling Column
  append_column name column f =
      if fits column f.block
      then record f { block = f.block ++ (name, column) ∷ [] }
      else record f { thrown = true }

  -- One round of the loop: an unknown column, one that cannot be created or converted, or one more
  -- column of the block.
  unfoldable pub fill_column : Map Bytes → Bytes × ClickColumn → Filling Column → Filling Column
  fill_column types (name, c) f = elim (find name types) [
    | none ↦ record f { errors = f.errors + 1; unknown_types = true }
    | some type_name ↦ elim (client.create type_name) [
      | none ↦ record f { errors = f.errors + 1 }
      | some column ↦ elim (column_to_click_column p client (array c.cells) column) [
        | ok filled ↦ append_column name filled f
        | throws e ↦ record f { errors = f.errors + 1 }
        | fault ↦ record f { crashed = true }
        | out_of_fuel ↦ record f { crashed = true }
      ]
    ]
  ]

  unfoldable pub fill_columns : Map Bytes → Map ClickColumn → Filling Column → Filling Column
  fill_columns types [] f = f
  fill_columns types (c ∷ m) f =
      if f.thrown || f.crashed then f else fill_columns types m (fill_column types c f)

  -- `fillTable` into an empty block.
  unfoldable pub fill_table : Map Bytes → Map ClickColumn → Filling Column
  fill_table types m =
      fill_columns types m
        (record { block = []; unknown_types = false; errors = 0; thrown = false; crashed = false })
