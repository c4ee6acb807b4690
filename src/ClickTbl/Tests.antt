-- ===== src/ClickTbl/Tests.antt =====
-- src/flexetl/clicktbl.h and clicktbl.cpp on small tables.
use flexetl.Prelude.{◌≡◌, ◌≢◌, refl, true, List, [], ◌∷◌, some, arith, length, ℕ, false}
use flexetl.Prelude.Words.{Bytes, to_le}
use flexetl.Result.{Error, ok, throws, out_of_fuel}
use flexetl.StdMap.{find}
use flexetl.StdMap.Key.{compare_bytes}
use flexetl.ClickTbl.Value.{unknown, str, int, array, bool, nil, cons}
use flexetl.ClickTbl.Column
use flexetl.ClickTbl.Memory.{Cells, Live, Call, appends, reverts, Memory, calls, destroy}
use flexetl.ClickTbl.Memory.Freed.{times_in}
use flexetl.ClickTbl.Memory.Erased.{erase_all, column_calls, calls-column_calls}
use flexetl.ClickTbl.Table
use flexetl.ClickTbl.Table.{ClickTable, Fields, append_all, finish_append}
use flexetl.ClickTbl.Table.Aligned.{IsAligned}
use flexetl.ClickTbl.Table.Rows.{cell}
use flexetl.ClickTbl.Stream.{Stream, opened, fwrite}
use flexetl.ClickTbl.Save.{save}
use flexetl.ClickTbl.Load.{c_string, load}
use flexetl.ClickTbl.Fuel.{load-ne-out_of_fuel}
use flexetl.ClickTbl.Encoding.{encode, encode_columns, encode_table, save_lem}
use flexetl.ClickTbl.Encoding.Columns.{cut_table}
use flexetl.ClickTbl.RoundTrip.{IsStorable, load-save, load-save_full}
use flexetl.ClickTbl.RoundTrip.Texts.{load-save_exact, load-save_zero}

-- Two rows: 5 and "hi" in the column "a", a null and [true] in "b".
abbrev two_rows : ClickTable
two_rows = record {
  tbl =
      (97 ∷ [], record { cells = cons (int 5) (cons (str (104 ∷ 105 ∷ [])) nil) })
      ∷ (98 ∷ [], record { cells = cons unknown (cons (array (cons (bool true) nil)) nil) })
      ∷ [];
  row_count = 2;
}

two_rows-IsAligned : IsAligned two_rows
unfolding compare_bytes
two_rows-IsAligned = record { sorted = (refl, (tt, tt)); level = (refl, (refl, tt)) }

two_rows-IsStorable : IsStorable two_rows
unfolding c_string
two_rows-IsStorable = record {
  aligned = two_rows-IsAligned;
  fits = record {
    columns = (
      omega arith,
      (omega arith, (omega arith, tt)),
      (omega arith, (tt, ((omega arith, (tt, tt)), tt)), tt),
    );
    column_count = omega arith;
    row_count = omega arith;
  };
  names = (refl, (refl, tt));
}

-- One row, whose text has a zero byte in it.
abbrev zero_row : ClickTable
zero_row = record {
  tbl = (97 ∷ [], record { cells = cons (str (104 ∷ 0 ∷ 105 ∷ [])) nil }) ∷ [];
  row_count = 1;
}

zero_row-IsStorable : IsStorable zero_row
unfolding c_string
zero_row-IsStorable = record {
  aligned = record { sorted = (tt, tt); level = (refl, tt) };
  fits = record {
    columns = (omega arith, (omega arith, tt), tt);
    column_count = omega arith;
    row_count = omega arith;
  };
  names = (refl, tt);
}

length-two_rows : length (encode_table two_rows) ≡ 65
unfolding encode_table encode_columns encode to_le
length-two_rows = refl

length-zero_row : length (encode_table zero_row) ≡ 32
unfolding encode_table encode_columns encode to_le
length-zero_row = refl

save_example : save (some (opened 20)) two_rows ≡ ok (fwrite (encode_table two_rows) (opened 20))
save_example = save_lem two_rows (opened 20) two_rows-IsStorable.fits

load-save_example :
    (fl : Stream) × (save (some (opened 32)) zero_row ≡ ok fl)
    × (load (some fl.written) Table.empty ≡ (cut_table zero_row, ok tt))
load-save_example = load-save zero_row 32 zero_row-IsStorable (omega (arith, length-zero_row))

load-save_full_example :
    (fl : Stream) × (e : Error) × (save (some (opened 64)) two_rows ≡ ok fl)
    × (load (some fl.written) Table.empty ≡ (Table.empty, throws e))
load-save_full_example =
    load-save_full two_rows 64 two_rows-IsStorable (omega (arith, length-two_rows))

load-save_exact_example :
    (fl : Stream) × (save (some (opened 65)) two_rows ≡ ok fl)
    × (load (some fl.written) Table.empty ≡ (two_rows, ok tt))
load-save_exact_example =
    load-save_exact two_rows 65 two_rows-IsStorable
      ((tt, ((omega arith, (omega arith, tt)), tt)), ((tt, ((tt, tt), tt)), tt))
      (omega (arith, length-two_rows))

zero_cell : cell zero_row (97 ∷ []) 0 ≡ str (104 ∷ 0 ∷ 105 ∷ [])
unfolding find
zero_cell = refl

load-save_zero_example :
    (fl : Stream) × (t' : ClickTable) × (save (some (opened 32)) zero_row ≡ ok fl)
    × (load (some fl.written) Table.empty ≡ (t', ok tt))
    × (cell t' (97 ∷ []) 0 ≢ cell zero_row (97 ∷ []) 0)
load-save_zero_example =
    load-save_zero zero_row 32 (97 ∷ []) 0 (104 ∷ 0 ∷ 105 ∷ []) zero_row-IsStorable
      (omega (arith, length-zero_row)) zero_cell (λ h. omega (arith, h.1.0))

-- A file that announces more than it holds.
abbrev broken : Bytes
broken = 46 ∷ 99 ∷ 100 ∷ 98 ∷ 0 ∷ 0 ∷ 0 ∷ 0 ∷ 9 ∷ 0 ∷ 0 ∷ 0 ∷ 9 ∷ 0 ∷ 0 ∷ 0 ∷ []

load-ne-out_of_fuel_example : (load (some broken) two_rows).1 ≢ out_of_fuel
load-ne-out_of_fuel_example = load-ne-out_of_fuel (some broken) two_rows

-- An array and a text, of which the second append throws the first away, and a row that is undone.
abbrev column_uses : List Call
column_uses =
    appends false true 0 (array (cons (str (104 ∷ [])) nil))
    ∷ appends true false 0 (str (105 ∷ []))
    ∷ appends false false 2 (str (106 ∷ []))
    ∷ reverts true 1
    ∷ []

calls-column_calls_example :
    (m : Memory) × (rest : Live) × (calls column_uses
        (record { cells = Cells.nil; live = 7 ∷ []; next = 8 })
      ≡ some m)
    × (erase_all m.cells ≡ (column_calls column_uses Column.empty).cells)
    × (destroy m ≡ some rest)
    × ((a : ℕ) → times_in a rest ≡ times_in a (7 ∷ []))
calls-column_calls_example = calls-column_calls column_uses (7 ∷ []) 8
