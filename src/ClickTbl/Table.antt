-- ===== src/ClickTbl/Table.antt =====
-- src/flexetl/clicktbl.h and clicktbl.cpp: `ClickTable` in memory. `m_rowCount` counts rows that
-- were read one by one, and is taken not to reach 2 ^ 64.
pub mod Aligned
pub mod Rows
use flexetl.Prelude.{ℕ, zero, suc, ◌+◌, ◌-◌, Bool, true, false, List, [], ◌∷◌}
use flexetl.Prelude.Words.{Bytes}
use flexetl.StdMap.{Map, update, map_values}
use flexetl.ClickTbl.Value.{Value, unknown}
use flexetl.ClickTbl.Column
use flexetl.ClickTbl.Column.{ClickColumn}

pub record ClickTable : Type 0 where
  pub tbl : Map ClickColumn
  pub row_count : ℕ

abbrev pub empty : ClickTable
empty = record { tbl = []; row_count = 0 }

-- `append`: `m_tbl[column].append(m_rowCount, val)`
unfoldable pub append : Bytes → Value → ClickTable → ClickTable
append column val t = record t {
  tbl = update Column.empty column (Column.append t.row_count val) t.tbl;
}

-- `for (size_t i = size(); i < m_rowCount; i++) append(i, Value())`, by the rounds that are left.
unfoldable pub fill_nulls : ℕ → ℕ → ClickColumn → ClickColumn
fill_nulls zero i c = c
fill_nulls (suc rounds) i c = fill_nulls rounds (i + 1) (Column.append i unknown c)

-- `finishAppend`
unfoldable pub finish_append : Bool → ClickTable → ClickTable
finish_append true t =
    let rows = t.row_count + 1 in
    record {
      tbl = map_values (λ c. fill_nulls (rows - Column.length c) (Column.length c) c) t.tbl;
      row_count = rows;
    }
finish_append false t = record t { tbl = map_values (Column.revert t.row_count) t.tbl }

-- `flushData` empties the columns and keeps them; `flushTbl` drops them.
unfoldable pub flush_data : ClickTable → ClickTable
flush_data t = record { tbl = map_values (Column.revert 0) t.tbl; row_count = 0 }

unfoldable pub flush_tbl : ClickTable → ClickTable
flush_tbl t = record { tbl = []; row_count = 0 }

-- The values that one parsed line assigns, in its order.
abbrev pub Fields : Type 0
Fields = List (Bytes × Value)

-- The calls of `append` for one line.
unfoldable pub append_all : Fields → ClickTable → ClickTable
append_all [] t = t
append_all ((k, v) ∷ fs) t = append_all fs (append k v t)
