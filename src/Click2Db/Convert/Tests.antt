-- ===== src/Click2Db/Convert/Tests.antt =====
-- `column2ClickColumn` on small inputs, into the columns of `Toy`.
use flexetl.Prelude.{
  ℕ, ◌+◌, sym, ap, Ordering, ◌≡◌, ◌≢◌, refl, Bool, true, false, [], ◌∷◌, Option, none, some, length,
}
use flexetl.Prelude.Words.{Bytes}
use flexetl.StdMap.{Map, find}
use flexetl.StdMap.Key.{compare_bytes}
use flexetl.Result.{ok, fault}
use flexetl.ClickTbl.Value.{Value, int, array, nil, cons, unknown}
use flexetl.ClickTbl.Table.{ClickTable}
use flexetl.ClickTbl.Table.Aligned.{IsAligned}
use flexetl.ClickTbl.Getters.Toy.{platform}
use flexetl.Click2Db.Toy.{Column, client, counts, nests}
use flexetl.Click2Db.Convert.{
  Code, Terminal, terminal, vector_of, cell_of, append_cells, append_arrays, convert_as, convert_in,
  column_to_click_column,
}
use flexetl.Click2Db.Convert.Size.{Grown, column_to_click_column-Grown}
use flexetl.Click2Db.Convert.Safe.{IsShaped, column_to_click_column_safe}
use flexetl.Click2Db.Block.{fill_table}
use flexetl.Click2Db.Block.Fill.{HasRows}
use flexetl.Click2Db.Block.Aligned.{is_flat, fill_table-IsAligned}

-- Two arrays, the second one empty, and an array column before and after them.
abbrev arrays : Value
arrays = array (cons (array (cons (int 5) nil)) (cons (array nil) nil))

abbrev array_column : ℕ → Column
array_column n = record { kind = Code.array; rows = n; inner = 0 }

converts : column_to_click_column platform client arrays (array_column 0) ≡ ok (array_column 2)
unfolding column_to_click_column convert_in convert_as append_arrays append_cells vector_of cell_of
converts = refl

-- A row without a value in a column of arrays.
null_item :
    column_to_click_column platform client (array (cons unknown nil)) (array_column 0) ≡ fault
unfolding column_to_click_column convert_in convert_as append_arrays vector_of
null_item = refl

column_to_click_column-Grown_example : Grown client arrays (array_column 0) (array_column 2)
column_to_click_column-Grown_example =
    column_to_click_column-Grown platform client counts arrays (array_column 0) (array_column 2)
      converts

arrays-IsShaped : IsShaped client 2 arrays (array_column 0)
unfolding IsShaped vector_of
arrays-IsShaped = (
  cons (array (cons (int 5) nil)) (cons (array nil) nil),
  refl,
  (
    record { kind = terminal Terminal.int64; rows = 0; inner = 0 },
    refl,
    ((cons (int 5) nil, refl, tt), ((nil, refl, tt), tt)),
  ),
)

column_to_click_column_safe_example :
    column_to_click_column platform client arrays (array_column 0) ≢ fault
column_to_click_column_safe_example =
    column_to_click_column_safe platform client arrays (array_column 0) arrays-IsShaped

-- A table of two rows and two columns, of which the database knows one, as a nullable number.
abbrev table : ClickTable
table = record {
  tbl =
      (97 ∷ [], record { cells = cons (int 5) (cons unknown nil) })
      ∷ (98 ∷ [], record { cells = cons unknown (cons (int 6) nil) })
      ∷ [];
  row_count = 2;
}

table-IsAligned : IsAligned table
unfolding compare_bytes
table-IsAligned = record { sorted = (refl, (tt, tt)); level = (refl, (refl, tt)) }

abbrev types : Map Bytes
types = (97 ∷ [], 78 ∷ 78 ∷ []) ∷ []

only_type :
    (o : Ordering) (name : Bytes)
    → ◌≡◌ {A = Option Bytes}
        (elim o [ Ordering.lt ↦ none | Ordering.eq ↦ some (78 ∷ 78 ∷ []) | Ordering.gt ↦ none ])
        (some name)
    → 78 ∷ 78 ∷ [] ≡ name
only_type Ordering.lt name h = absurd cc
only_type Ordering.eq name h = cc
only_type Ordering.gt name h = absurd cc

abbrev flat_of : Option Column → Bool
flat_of none = true
flat_of (some c) = is_flat client c

types_flat :
    (k name : Bytes) (c : Column)
    → find k types ≡ some name
    → client.create name ≡ some c
    → is_flat client c ≡ true
unfolding find is_flat
types_flat k name c h made =
    let e = only_type (compare_bytes k (97 ∷ [])) name h in sym (ap flat_of (rw (sym e) at made))

fill_table-IsAligned_example :
    let f = fill_table platform client types table.tbl in
    (f.thrown ≡ false)
    × (f.crashed ≡ false)
    × HasRows platform client 2 f.block
    × (f.errors + length f.block ≡ 2)
fill_table-IsAligned_example =
    fill_table-IsAligned platform client counts nests types types_flat table table-IsAligned
