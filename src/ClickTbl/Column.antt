-- ===== src/ClickTbl/Column.antt =====
-- src/flexetl/clicktbl.h: `ClickColumn`. Its `_data` is an array from the start and stays one, so
-- the column is the vector behind it.
use flexetl.Prelude.{ℕ, zero, suc, ◌+◌, ◌≡◌, refl, arith, ◌==◌, if◌then◌else◌}
use flexetl.ClickTbl.Value.{
  Value, Values, nil, size, emplace_back, resize, size-resize, size-emplace_back, resize_self,
  resize-emplace_back,
}

pub record ClickColumn : Type 0 where
  pub cells : Values

-- `Value _data = std::vector<Value>()`
abbrev pub empty : ClickColumn
empty = record { cells = nil }

abbrev pub length : ClickColumn → ℕ
length c = size c.cells

-- `ClickColumn::append`: a column of another size is first cut or padded to `at`.
unfoldable pub append : ℕ → Value → ClickColumn → ClickColumn
append at val c =
    let sized = if size c.cells == at then c.cells else resize at c.cells in
    record c { cells = emplace_back sized val }

-- `ClickColumn::revert`
unfoldable pub revert : ℕ → ClickColumn → ClickColumn
revert at c = record c { cells = if at == 0 then nil else resize at c.cells }

pub append_lem :
    (at : ℕ) (v : Value) (c : ClickColumn)
    → append at v c ≡ record { cells = emplace_back (resize at c.cells) v }
unfolding append
append_lem at v c = ground (arith, resize_self at c.cells)

pub revert_lem : (at : ℕ) (c : ClickColumn) → revert at c ≡ record { cells = resize at c.cells }
unfolding revert resize
revert_lem zero c = refl
revert_lem (suc at) c = ground arith

-- A second value for the same row replaces the first.
pub append-append :
    (at : ℕ) (v w : Value) (c : ClickColumn) → append at v (append at w c) ≡ append at v c
append-append at v w c = simp append_lem (
    rw (resize-emplace_back at (resize at c.cells) w (omega (arith, size-resize at c.cells)))
      (rw (resize_self at (resize at c.cells) (size-resize at c.cells))))

pub size-append : (at : ℕ) (v : Value) (c : ClickColumn) → size (append at v c).cells ≡ at + 1
size-append at v c =
    rw (append_lem at v c)
      (omega (arith, size-emplace_back (resize at c.cells) v, size-resize at c.cells))

pub size-revert : (at : ℕ) (c : ClickColumn) → size (revert at c).cells ≡ at
size-revert at c = rw (revert_lem at c) (size-resize at c.cells)
