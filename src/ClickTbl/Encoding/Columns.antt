-- ===== src/ClickTbl/Encoding/Columns.antt =====
-- `load` reads back a whole table.
use flexetl.Prelude.{
  ℕ, ◌+◌, ◌≤◌, ◌≡◌, ap, subst, ◌∙◌, [], ◌∷◌, ◌++◌, append-nil, append_assoc, arith, length,
  length-append,
}
use flexetl.Prelude.Int.{pos}
use flexetl.Prelude.Words.{Bytes}
use flexetl.Result.{for_rounds, read_name_size_failed, read_name_failed}
use flexetl.StdMap.{
  Map, find, AllValues, or_default, IsSorted, IsAbove, IsBelow, IsBelow-snoc, find_last,
  update_last,
}
use flexetl.ClickTbl.Value.{array, nil, size, append_values}
use flexetl.ClickTbl.Column
use flexetl.ClickTbl.Column.{ClickColumn}
use flexetl.ClickTbl.Table
use flexetl.ClickTbl.Table.{ClickTable}
use flexetl.ClickTbl.Table.Aligned.{IsAligned}
use flexetl.ClickTbl.Int32.{int32_small}
use flexetl.ClickTbl.Save.{file_key, file_mask}
use flexetl.ClickTbl.Load.{c_string, restore_text, reserve, load_column, load_table, restore_value}
use flexetl.ClickTbl.Encoding.{
  encode_text, encode_all, encode_columns, encode_table, FitsText, FitsAll, FitsColumns, FitsTable,
}
use flexetl.ClickTbl.Encoding.Reads.{Reads, Reads-pure, Reads-bind, Reads-map}
use flexetl.ClickTbl.Encoding.Restore.{cut_all, Reads-int, restore_text-Reads, values-Reads}

-- The values of every column, cut at their zero bytes.
unfoldable pub cut_columns : Map ClickColumn → Map ClickColumn
cut_columns [] = []
cut_columns ((name, c) ∷ m) = (name, record { cells = cut_all c.cells }) ∷ cut_columns m

unfoldable pub cut_table : ClickTable → ClickTable
cut_table t = record t { tbl = cut_columns t.tbl }

abbrev column : Map ClickColumn → Bytes → ClickColumn
column m name = or_default Column.empty (find name m)

-- No column's name has a zero byte in it.
abbrev pub HasNames : Map ClickColumn → Type 0
HasNames [] = Unit
HasNames ((name, c) ∷ m) = (c_string name ≡ name) × HasNames m

-- The rows of one column, behind its name.
cells-Reads :
    (f n : ℕ) (m : Map ClickColumn) (name : Bytes) (c : ClickColumn)
    → IsBelow m name
    → size c.cells ≡ n
    → FitsAll c.cells
    → length (encode_all c.cells) ≤ f
    → Reads
        (for_rounds n (restore_value f) (array (column m name).cells))
        (encode_all c.cells)
        (array (cut_all c.cells))
unfolding append_values
cells-Reads f n m name c below count fits fuel =
    rw (find_last name m below, ← count) (values-Reads c.cells f nil fits fuel)

column-Reads :
    (f n : ℕ) (m : Map ClickColumn) (name : Bytes) (c : ClickColumn)
    → IsBelow m name
    → FitsText name
    → c_string name ≡ name
    → size c.cells ≡ n
    → FitsAll c.cells
    → length (encode_all c.cells) ≤ f
    → Reads
        (load_column f (pos n) m)
        (encode_text name ++ encode_all c.cells)
        (m ++ (name, record { cells = cut_all c.cells }) ∷ [])
unfolding load_column reserve
column-Reads f n m name c below fits is_name count fits_all fuel =
    Reads-bind _
      (subst (λ s. Reads (restore_text read_name_size_failed read_name_failed) (encode_text name) s)
        is_name (restore_text-Reads name _ _ fits))
      (Reads-map _ (cells-Reads f n m name c below count fits_all fuel) (
        rw (update_last Column.empty name (λ _. record { cells = cut_all c.cells }) m below)
          (Reads-pure _)))

-- The keys of `acc` come before the first key of `m`.
abbrev Follows : Map ClickColumn → Map ClickColumn → Type 0
Follows acc [] = Unit
Follows acc ((k, c) ∷ m) = IsBelow acc k

Follows-snoc :
    (acc m : Map ClickColumn) (k : Bytes) (c : ClickColumn)
    → IsBelow acc k
    → IsAbove k m
    → Follows (acc ++ (k, c) ∷ []) m
Follows-snoc acc [] k c h a = tt
Follows-snoc acc ((j, d) ∷ m) k c h a = IsBelow-snoc acc k j c h a

Follows-nil : (m : Map ClickColumn) → Follows [] m
Follows-nil [] = tt
Follows-nil ((k, c) ∷ m) = tt

lengths :
    (name : Bytes) (c : ClickColumn) (m : Map ClickColumn)
    → length (encode_columns ((name, c) ∷ m))
      ≡ length (encode_text name) + (length (encode_all c.cells) + length (encode_columns m))
unfolding encode_columns
lengths name c m =
    length-append (encode_text name) (encode_all c.cells ++ encode_columns m)
    ∙ ap (λ n. length (encode_text name) + n)
        (length-append (encode_all c.cells) (encode_columns m))

columns-Reads :
    (f n : ℕ) (m acc : Map ClickColumn)
    → IsSorted m
    → FitsColumns m
    → HasNames m
    → AllValues (λ c. size c.cells ≡ n) m
    → Follows acc m
    → length (encode_columns m) ≤ f
    → Reads
        (for_rounds (length m) (load_column f (pos n)) acc)
        (encode_columns m)
        (acc ++ cut_columns m)
unfolding for_rounds encode_columns cut_columns
columns-Reads f n [] acc sorted fits names level follows fuel = rw (append-nil acc) (Reads-pure acc)
columns-Reads f n ((name, c) ∷ m) acc sorted fits names level follows fuel =
    subst
      (λ bs.
        Reads (for_rounds (length ((name, c) ∷ m)) (load_column f (pos n)) acc) bs
          (acc ++ cut_columns ((name, c) ∷ m)))
      (append_assoc (encode_text name) (encode_all c.cells) (encode_columns m))
      (Reads-bind _
        (column-Reads f n acc name c follows fits.0 names.0 level.0 fits.1
          (omega (arith, lengths name c m)))
        (rw (← append_assoc acc ((name, record { cells = cut_all c.cells }) ∷ []) (cut_columns m)) (
          columns-Reads f n m (acc ++ (name, record { cells = cut_all c.cells }) ∷ []) sorted.1
            fits.2 names.1 level.1 (Follows-snoc acc m name _ follows sorted.0)
            (omega (arith, lengths name c m)))))

pub table-Reads :
    (t : ClickTable) (f : ℕ)
    → IsAligned t
    → FitsTable t
    → HasNames t.tbl
    → length (encode_columns t.tbl) ≤ f
    → Reads (load_table f Table.empty) (encode_table t) (cut_table t)
unfolding load_table encode_table cut_table
table-Reads t f aligned fits names fuel = Reads-bind _ (Reads-int file_key _ (omega arith)) (
    Reads-bind _ (Reads-int file_mask _ (omega arith)) (
      Reads-bind _ (Reads-int (length t.tbl) _ (omega (arith, fits.column_count))) (
        Reads-bind _ (Reads-int t.row_count _ (omega (arith, fits.row_count))) (
          rw (int32_small (length t.tbl) fits.column_count, int32_small t.row_count fits.row_count)
            (Reads-map _
              (columns-Reads f t.row_count t.tbl [] aligned.sorted fits.columns names aligned.level
                (Follows-nil t.tbl) fuel)
              (Reads-pure _))))))
