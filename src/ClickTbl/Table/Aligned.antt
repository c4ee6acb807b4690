-- ===== src/ClickTbl/Table/Aligned.antt =====
-- The invariant of a table: its columns are in order, and between lines each holds one value for
-- each row.
use flexetl.Prelude.{
  ℕ, zero, suc, ◌+◌, ◌-◌, ◌≤◌, ◌≡◌, refl, sym, ap, ◌∙◌, ◌⊎◌, inl, inr, Bool, true, false, [], ◌∷◌,
  arith,
}
use flexetl.Prelude.Words.{Bytes}
use flexetl.StdMap.{
  AllValues, AllValues-weaken, AllValues-update, AllValues-map_values, IsSorted, update-IsSorted,
  map_values-IsSorted,
}
use flexetl.ClickTbl.Value.{
  Value, unknown, size, resize, size-resize, resize_self, resize-suc, resize-resize,
}
use flexetl.ClickTbl.Column.{ClickColumn, append_lem, size-append, size-revert}
use flexetl.ClickTbl.Table.{
  ClickTable, Fields, append, fill_nulls, finish_append, flush_data, flush_tbl, append_all,
}

pub record IsAligned (t : ClickTable) : Type 0 where
  pub sorted : IsSorted t.tbl
  pub level : AllValues (λ c. size c.cells ≡ t.row_count) t.tbl

-- In the middle of a line a column may hold one value more.
pub record IsFilling (t : ClickTable) : Type 0 where
  pub sorted : IsSorted t.tbl
  pub level : AllValues (λ c. (size c.cells ≡ t.row_count) ⊎ (size c.cells ≡ t.row_count + 1)) t.tbl

-- Filling with nulls is growing to the new size.
fill_nulls_lem :
    (rounds i n : ℕ) (c : ClickColumn)
    → size c.cells ≡ i
    → i + rounds ≡ n
    → fill_nulls rounds i c ≡ record { cells = resize n c.cells }
unfolding fill_nulls
fill_nulls_lem zero i n c h e =
    ap (λ vs. record { cells = vs }) (sym (resize_self n c.cells (omega arith)))
fill_nulls_lem (suc rounds) i n c h e =
    rw (append_lem i unknown c, ← resize-suc i c.cells (omega arith))
      (fill_nulls_lem rounds (i + 1) n _ (omega (arith, size-resize (suc i) c.cells)) (omega arith)
        ∙ ap (λ vs. record { cells = vs })
            (resize-resize n (suc i) c.cells (omega arith) (omega arith)))

-- What `finishAppend(true)` does to a column that is not too long.
pub complete_lem :
    (n : ℕ) (c : ClickColumn)
    → size c.cells ≤ n
    → fill_nulls (n - size c.cells) (size c.cells) c ≡ record { cells = resize n c.cells }
complete_lem n c h = fill_nulls_lem (n - size c.cells) (size c.cells) n c refl (omega arith)

pub IsAligned-IsFilling : (t : ClickTable) → IsAligned t → IsFilling t
IsAligned-IsFilling t h = record {
  sorted = h.sorted;
  level = AllValues-weaken _ _ t.tbl (λ c e. inl e) h.level;
}

append-IsFilling : (k : Bytes) (v : Value) (t : ClickTable) → IsFilling t → IsFilling (append k v t)
unfolding append
append-IsFilling k v t h = record {
  sorted = update-IsSorted _ k _ t.tbl h.sorted;
  level =
      AllValues-update _ _ k _ t.tbl (inr (size-append t.row_count v _))
        (λ c _. inr (size-append t.row_count v c)) h.level;
}

pub append_all-IsFilling :
    (fs : Fields) (t : ClickTable) → IsFilling t → IsFilling (append_all fs t)
unfolding append_all
append_all-IsFilling [] t h = h
append_all-IsFilling ((k, v) ∷ fs) t h =
    append_all-IsFilling fs (append k v t) (append-IsFilling k v t h)

-- Whether the line was good or bad, the table is aligned again at its end.
pub finish_append-IsAligned :
    (ok : Bool) (t : ClickTable) → IsFilling t → IsAligned (finish_append ok t)
unfolding finish_append
finish_append-IsAligned true t h = record {
  sorted = map_values-IsSorted _ t.tbl h.sorted;
  level =
      AllValues-map_values _ _ _ t.tbl
        (λ c e. rw (complete_lem (t.row_count + 1) c (omega arith)) (size-resize _ c.cells))
        h.level;
}
finish_append-IsAligned false t h = record {
  sorted = map_values-IsSorted _ t.tbl h.sorted;
  level = AllValues-map_values _ _ _ t.tbl (λ c _. size-revert t.row_count c) h.level;
}

pub flush_data-IsAligned : (t : ClickTable) → IsAligned t → IsAligned (flush_data t)
unfolding flush_data
flush_data-IsAligned t h = record {
  sorted = map_values-IsSorted _ t.tbl h.sorted;
  level = AllValues-map_values _ _ _ t.tbl (λ c _. size-revert 0 c) h.level;
}

pub flush_tbl-IsAligned : (t : ClickTable) → IsAligned (flush_tbl t)
unfolding flush_tbl
flush_tbl-IsAligned t = record { sorted = tt; level = tt }

pub append_all-IsAligned :
    (ok : Bool) (fs : Fields) (t : ClickTable)
    → IsAligned t
    → IsAligned (finish_append ok (append_all fs t))
append_all-IsAligned ok fs t h =
    finish_append-IsAligned ok _ (append_all-IsFilling fs t (IsAligned-IsFilling t h))
