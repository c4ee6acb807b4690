-- ===== src/ClickTbl/Table/Rows.antt =====
-- A table as its rows: what is read at a column and a row, before and after a line.
use mathlib.Core.Option
use flexetl.Prelude.{
  ℕ, ◌+◌, ◌-◌, ◌≤◌, ◌≡◌, refl, sym, ap, ◌∙◌, ◌⊎◌, inl, inr, Bool, true, false, Option, none, some,
  [], ◌∷◌, arith, if◌then◌else◌, ltb, ◌==◌, Bool-cases, Option-cases,
}
use flexetl.Prelude.Words.{Bytes}
use flexetl.StdMap.{
  find, same_key, or_default, find-update, find-map_values, AllValues-find, eq_of_same_key,
}
use flexetl.ClickTbl.Value.{
  Value, unknown, size, read, resize, emplace_back, size-resize, size-emplace_back, read-resize,
  read-resize_lt, read-emplace_back_lt, read-emplace_back_last, read_past,
}
use flexetl.ClickTbl.Column
use flexetl.ClickTbl.Column.{ClickColumn, append_lem, revert_lem, append-append, size-append}
use flexetl.ClickTbl.Table.{ClickTable, Fields, append, fill_nulls, finish_append, append_all}
use flexetl.ClickTbl.Table.Aligned.{
  IsAligned, IsFilling, complete_lem, append_all-IsFilling, append_all-IsAligned,
  IsAligned-IsFilling,
}

-- The column of a name; a name that is missing reads as an empty column.
abbrev pub column : ClickTable → Bytes → ClickColumn
column t k = or_default Column.empty (find k t.tbl)

-- The value at a row of a column: a null where nothing is stored.
abbrev pub cell : ClickTable → Bytes → ℕ → Value
cell t k i = read (column t k).cells i

abbrev or_else : Option Value → Option Value → Option Value
or_else none o = o
or_else (some w) o = some w

-- The value that a line assigns to a column: the last one, if it assigns it more than once.
unfoldable pub last_value : Bytes → Fields → Option Value
last_value k [] = none
last_value k ((j, v) ∷ fs) = or_else (last_value k fs) (if same_key k j then some v else none)

abbrev pub or_null : Option Value → Value
or_null = or_default unknown

abbrev assigned : ClickTable → Bytes → Option Value → Option ClickColumn
assigned t k none = find k t.tbl
assigned t k (some v) = some (Column.append t.row_count v (column t k))

row_count-append_all : (fs : Fields) (t : ClickTable) → (append_all fs t).row_count ≡ t.row_count
unfolding append_all append
row_count-append_all [] t = refl
row_count-append_all ((k, v) ∷ fs) t = row_count-append_all fs (append k v t)

find-append :
    (j k : Bytes) (v : Value) (t : ClickTable)
    → find k (append j v t).tbl
      ≡ (if same_key k j then some (Column.append t.row_count v (column t j)) else find k t.tbl)
unfolding append
find-append j k v t = find-update _ j k _ t.tbl

-- One more value before the others of the line.
assigned-append :
    (j k : Bytes) (v : Value) (t : ClickTable) (o : Option Value)
    → assigned (append j v t) k o ≡ assigned t k (or_else o (if same_key k j then some v else none))
unfolding append
assigned-append j k v t o = elim (Bool-cases (same_key k j)) [
  | inl e ↦ hit o e (find-append j k v t ∙ rw e) (eq_of_same_key k j e)
  | inr e ↦ miss o e (find-append j k v t ∙ rw e)
]
  where
    hit :
        (o : Option Value)
        → same_key k j ≡ true
        → find k (append j v t).tbl ≡ some (Column.append t.row_count v (column t j))
        → k ≡ j
        → assigned (append j v t) k o
          ≡ assigned t k (or_else o (if same_key k j then some v else none))
    hit none e f p = rw (e, f, p)
    hit (some w) e f p = rw f (
        ap some (
          append-append t.row_count w v (column t j)
          ∙ ap (λ c. Column.append t.row_count w (column t c)) (sym p)))

    miss :
        (o : Option Value)
        → same_key k j ≡ false
        → find k (append j v t).tbl ≡ find k t.tbl
        → assigned (append j v t) k o
          ≡ assigned t k (or_else o (if same_key k j then some v else none))
    miss none e f = rw (e, f)
    miss (some w) e f = rw f

-- After the calls of one line a column is as before, or has the last value at the new row.
find-append_all :
    (fs : Fields) (t : ClickTable) (k : Bytes)
    → find k (append_all fs t).tbl ≡ assigned t k (last_value k fs)
unfolding append_all last_value
find-append_all [] t k = refl
find-append_all ((j, v) ∷ fs) t k =
    find-append_all fs (append j v t) k ∙ assigned-append j k v t (last_value k fs)

-- A column has at most one value for each row.
size-column-le :
    (t : ClickTable) (k : Bytes) (n : ℕ)
    → ((c : ClickColumn) → find k t.tbl ≡ some c → size c.cells ≤ n)
    → size (column t k).cells ≤ n
size-column-le t k n h = elim (Option-cases (find k t.tbl)) [
  | inl e ↦ rw e (omega arith)
  | inr (c, e) ↦ rw e (h c e)
]

IsAligned-size : (t : ClickTable) (k : Bytes) → IsAligned t → size (column t k).cells ≤ t.row_count
IsAligned-size t k h =
    size-column-le t k t.row_count
      λ c e. omega (arith, AllValues-find (λ c. size c.cells ≡ t.row_count) k t.tbl h.level e)

read-assigned :
    (t : ClickTable) (k : Bytes) (i : ℕ) (o : Option Value)
    → size (column t k).cells ≤ t.row_count
    → read (or_default Column.empty (assigned t k o)).cells i
      ≡ (if i == t.row_count then or_null o else cell t k i)
read-assigned t k i none h = ground (arith, read_past (column t k).cells i)
read-assigned t k i (some v) h = rw (append_lem t.row_count v (column t k)) (
    ground (
      arith,
      size-resize t.row_count (column t k).cells,
      size-emplace_back (resize t.row_count (column t k).cells) v,
      read-emplace_back_lt (resize t.row_count (column t k).cells) v i,
      read-emplace_back_last (resize t.row_count (column t k).cells) v i,
      read_past (emplace_back (resize t.row_count (column t k).cells) v) i,
      read-resize_lt t.row_count i (column t k).cells,
      read_past (column t k).cells i,
    ))

-- At the new row a line in progress holds its assignments, and elsewhere the old rows.
cell-append_all :
    (fs : Fields) (t : ClickTable) (k : Bytes) (i : ℕ)
    → IsAligned t
    → cell (append_all fs t) k i
      ≡ (if i == t.row_count then or_null (last_value k fs) else cell t k i)
cell-append_all fs t k i h =
    ap (λ o. read (or_default Column.empty o).cells i) (find-append_all fs t k)
    ∙ read-assigned t k i (last_value k fs) (IsAligned-size t k h)

read_complete :
    (n i : ℕ) (o : Option ClickColumn)
    → ((c : ClickColumn) → o ≡ some c → size c.cells ≤ n)
    → read
        (or_default Column.empty
          (Option.map (λ c. fill_nulls (n - size c.cells) (size c.cells) c) o)).cells
        i
      ≡ read (or_default Column.empty o).cells i
read_complete n i none h = refl
read_complete n i (some c) h = rw (complete_lem n c (h c refl)) (read-resize n i c.cells (h c refl))

-- Completing a line does not change what is read.
cell-finish_true :
    (t : ClickTable) (k : Bytes) (i : ℕ)
    → IsFilling t
    → cell (finish_append true t) k i ≡ cell t k i
unfolding finish_append
cell-finish_true t k i h =
    ap (λ o. read (or_default Column.empty o).cells i) (find-map_values k _ t.tbl)
    ∙ read_complete (t.row_count + 1) i (find k t.tbl) λ c e. omega (
      arith,
      AllValues-find (λ c. (size c.cells ≡ t.row_count) ⊎ (size c.cells ≡ t.row_count + 1)) k t.tbl
          h.level e,
    )

read-revert :
    (n i : ℕ) (o : Option ClickColumn)
    → read (or_default Column.empty (Option.map (Column.revert n) o)).cells i
      ≡ (if ltb i n then read (or_default Column.empty o).cells i else unknown)
read-revert n i none = ground arith
read-revert n i (some c) = rw (revert_lem n c) (
    ground
      (arith, read-resize_lt n i c.cells, size-resize n c.cells, read_past (resize n c.cells) i))

-- Dropping a line leaves the rows below it, and nothing else.
cell-finish_false :
    (t : ClickTable) (k : Bytes) (i : ℕ)
    → cell (finish_append false t) k i ≡ (if ltb i t.row_count then cell t k i else unknown)
unfolding finish_append
cell-finish_false t k i =
    ap (λ o. read (or_default Column.empty o).cells i) (find-map_values k _ t.tbl)
    ∙ read-revert t.row_count i (find k t.tbl)

row_count-finish :
    (ok : Bool) (t : ClickTable)
    → (finish_append ok t).row_count ≡ (if ok then t.row_count + 1 else t.row_count)
unfolding finish_append
row_count-finish true t = refl
row_count-finish false t = refl

-- A line that was read to its end adds one row: each column that the line assigns has there the
-- last value assigned to it and each other column a null; no earlier row changes, and every column
-- keeps one value for each row.
pub finish_append-append_all :
    (fs : Fields) (t : ClickTable)
    → IsAligned t
    → IsAligned (finish_append true (append_all fs t))
      × ((finish_append true (append_all fs t)).row_count ≡ t.row_count + 1)
      × ((k : Bytes) (i : ℕ)
          → cell (finish_append true (append_all fs t)) k i
            ≡ (if i == t.row_count then or_null (last_value k fs) else cell t k i))
finish_append-append_all fs t h = (
  append_all-IsAligned true fs t h,
  row_count-finish true (append_all fs t) ∙ ap (λ n. n + 1) (row_count-append_all fs t),
  λ k i.
      cell-finish_true _ k i (append_all-IsFilling fs t (IsAligned-IsFilling t h))
      ∙ cell-append_all fs t k i h,
)

-- A line that fails after any of its assignments leaves the number of rows and every value of
-- every row as they were, and the columns with one value for each row.
pub finish_append_rollback :
    (fs : Fields) (t : ClickTable)
    → IsAligned t
    → IsAligned (finish_append false (append_all fs t))
      × ((finish_append false (append_all fs t)).row_count ≡ t.row_count)
      × ((k : Bytes) (i : ℕ) → cell (finish_append false (append_all fs t)) k i ≡ cell t k i)
finish_append_rollback fs t h = (
  append_all-IsAligned false fs t h,
  row_count-finish false (append_all fs t) ∙ row_count-append_all fs t,
  λ k i.
      cell-finish_false (append_all fs t) k i
      ∙ rw (row_count-append_all fs t, cell-append_all fs t k i h)
          (ground (arith, IsAligned-size t k h, read_past (column t k).cells i)),
)
