-- ===== src/ClickTbl/RoundTrip/Texts.antt =====
-- Which strings survive `save` and `load`: `restoreValue` makes them of a `const char *`.
use mathlib.Core.Option
use flexetl.Prelude.{
  ℕ, zero, suc, ◌≤◌, ◌<◌, ◌≡◌, ◌≢◌, refl, ap, ◌∙◌, Option, none, some, [], ◌∷◌, arith, length, All,
  ◌==◌, ne→==, Bool-cases, inl, inr,
}
use flexetl.Prelude.Words.{Bytes}
use flexetl.StdMap.{Map, find, or_default}
use flexetl.ClickTbl.Value.{
  Value, Values, unknown, str, int, uint, double, array, bool, nil, cons, read,
}
use flexetl.ClickTbl.Column
use flexetl.ClickTbl.Column.{ClickColumn}
use flexetl.ClickTbl.Table
use flexetl.ClickTbl.Table.{ClickTable}
use flexetl.ClickTbl.Table.Rows.{cell}
use flexetl.ClickTbl.Stream.{opened, Stream}
use flexetl.ClickTbl.Save.{save}
use flexetl.ClickTbl.Load.{c_string, load}
use flexetl.Result.{ok}
use flexetl.ClickTbl.Encoding.{encode_table}
use flexetl.ClickTbl.Encoding.Restore.{cut, cut_all}
use flexetl.ClickTbl.Encoding.Columns.{cut_columns, cut_table}
use flexetl.ClickTbl.RoundTrip.{IsStorable, load-save}

-- No byte of the text is zero.
abbrev pub IsText : Bytes → Type 0
IsText s = All (λ b. 0 < b) s

abbrev mutual
  pub HasTexts : Value → Type 0
  HasTexts unknown = Unit
  HasTexts (str s) = IsText s
  HasTexts (int n) = Unit
  HasTexts (uint n) = Unit
  HasTexts (double n) = Unit
  HasTexts (array vs) = AllHaveTexts vs
  HasTexts (bool b) = Unit

  pub AllHaveTexts : Values → Type 0
  AllHaveTexts nil = Unit
  AllHaveTexts (cons v vs) = HasTexts v × AllHaveTexts vs

abbrev pub ColumnsHaveTexts : Map ClickColumn → Type 0
ColumnsHaveTexts [] = Unit
ColumnsHaveTexts ((name, c) ∷ m) = AllHaveTexts c.cells × ColumnsHaveTexts m

c_string-IsText : (s : Bytes) → IsText s → c_string s ≡ s
unfolding c_string
c_string-IsText [] h = refl
c_string-IsText (b ∷ s) h =
    rw (ne→== b 0 (omega arith)) (ap (λ (l : Bytes). b ∷ l) (c_string-IsText s h.1))

mutual
  unfolding cut

  cut-HasTexts : (v : Value) → HasTexts v → cut v ≡ v
  cut-HasTexts (str s) h = ap str (c_string-IsText s h)
  cut-HasTexts (array vs) h = ap array (cut_all-HaveTexts vs h)
  cut-HasTexts unknown h = refl
  cut-HasTexts (int n) h = refl
  cut-HasTexts (uint n) h = refl
  cut-HasTexts (double n) h = refl
  cut-HasTexts (bool b) h = refl

  cut_all-HaveTexts : (vs : Values) → AllHaveTexts vs → cut_all vs ≡ vs
  cut_all-HaveTexts nil h = refl
  cut_all-HaveTexts (cons v vs) h = cc (cut-HasTexts v h.0, cut_all-HaveTexts vs h.1)

cut_columns-HaveTexts : (m : Map ClickColumn) → ColumnsHaveTexts m → cut_columns m ≡ m
unfolding cut_columns
cut_columns-HaveTexts [] h = refl
cut_columns-HaveTexts ((name, c) ∷ m) h =
    rw (cut_all-HaveTexts c.cells h.0)
      (ap (λ (l : Map ClickColumn). (name, c) ∷ l) (cut_columns-HaveTexts m h.1))

-- A table with no zero byte in any of its texts comes back from its file exactly as it was.
pub load-save_exact :
    (t : ClickTable) (room : ℕ)
    → IsStorable t
    → ColumnsHaveTexts t.tbl
    → length (encode_table t) ≤ room
    → (fl : Stream) × (save (some (opened room)) t ≡ ok fl)
      × (load (some fl.written) Table.empty ≡ (t, ok tt))
unfolding cut_table
load-save_exact t room s h l =
    let (fl, saved, loaded) = load-save t room s l in
    (fl, saved, loaded ∙ rw (cut_columns-HaveTexts t.tbl h))

-- Reading a cell of the cut table cuts the cell.
read-cut_all : (vs : Values) (i : ℕ) → read (cut_all vs) i ≡ cut (read vs i)
unfolding cut
read-cut_all nil i = refl
read-cut_all (cons v vs) zero = refl
read-cut_all (cons v vs) (suc i) = read-cut_all vs i

cut_column : ClickColumn → ClickColumn
cut_column c = record { cells = cut_all c.cells }

find-cut_columns :
    (k : Bytes) (m : Map ClickColumn) → find k (cut_columns m) ≡ Option.map cut_column (find k m)
unfolding find cut_columns cut_column
find-cut_columns k [] = refl
find-cut_columns k ((j, c) ∷ m) = ground (arith, find-cut_columns k m)

cell-cut_table : (t : ClickTable) (k : Bytes) (i : ℕ) → cell (cut_table t) k i ≡ cut (cell t k i)
unfolding cut_table cut_column cut
cell-cut_table t k i =
    ap (λ o. read (or_default Column.empty o).cells i) (find-cut_columns k t.tbl)
    ∙ go (find k t.tbl)
  where
    go :
        (o : Option ClickColumn)
        → read (or_default Column.empty (Option.map cut_column o)).cells i
          ≡ cut (read (or_default Column.empty o).cells i)
    go none = refl
    go (some c) = read-cut_all c.cells i

length-c_string : (s : Bytes) → length (c_string s) ≤ length s
unfolding c_string
length-c_string [] = omega arith
length-c_string (b ∷ s) = ground (arith, length-c_string s)

-- Cutting loses text exactly where there is a zero byte.
c_string_ne : (s : Bytes) → ¬ IsText s → c_string s ≢ s
unfolding c_string
c_string_ne [] h e = h tt
c_string_ne (b ∷ s) h e = elim (Bool-cases (b == 0)) [
  | inl z ↦ cut_here (rw (z, c_string) at e)
  | inr nz ↦ c_string_ne s (λ t. h (ground arith, t)) (keep (rw (nz, c_string) at e))
]
  where
    cut_here : [] ≡ b ∷ s → ⊥
    cut_here p = cc

    keep : b ∷ c_string s ≡ b ∷ s → c_string s ≡ s
    keep p = cc

-- A stored string with a zero byte in it does not come back.
pub load-save_zero :
    (t : ClickTable) (room : ℕ) (k : Bytes) (i : ℕ) (s : Bytes)
    → IsStorable t
    → length (encode_table t) ≤ room
    → cell t k i ≡ str s
    → ¬ IsText s
    → (fl : Stream) × (t' : ClickTable) × (save (some (opened room)) t ≡ ok fl)
      × (load (some fl.written) Table.empty ≡ (t', ok tt))
      × (cell t' k i ≢ cell t k i)
unfolding cut
load-save_zero t room k i s st l at_cell zero_byte =
    let (fl, saved, loaded) = load-save t room st l in
    (
      fl,
      cut_table t,
      saved,
      loaded,
      λ e. c_string_ne s zero_byte (cc (cell-cut_table t k i, ap cut at_cell)),
    )
