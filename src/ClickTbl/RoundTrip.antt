-- ===== src/ClickTbl/RoundTrip.antt =====
-- `save` and then `load`: what comes back of a table, also off a device that ran full.
pub mod Texts
use flexetl.Prelude.{
  ℕ, zero, suc, ◌+◌, ◌-◌, ◌≤◌, ◌<◌, ◌≡◌, ◌≢◌, refl, ap, sym, subst, ◌∙◌, Option, none, some, [],
  ◌∷◌, ◌++◌, append-nil, arith, length, take, take-all, length-append, Bool, true, false, List,
}
use flexetl.Prelude.Words.{Bytes}
use flexetl.Result.{Result, Error, ok, throws}
use flexetl.ClickTbl.Table
use flexetl.ClickTbl.Table.{ClickTable, flush_tbl}
use flexetl.ClickTbl.Table.Aligned.{IsAligned}
use flexetl.ClickTbl.Stream.{Stream, opened, fwrite}
use flexetl.ClickTbl.Save.{save}
use flexetl.ClickTbl.Load.{load, load_table, recover}
use flexetl.ClickTbl.Fuel.{load-load_table}
use flexetl.ClickTbl.Encoding.{encode_columns, encode_table, FitsTable, save_lem}
use flexetl.ClickTbl.Encoding.Columns.{cut_table, HasNames, table-Reads}

-- A table that `save` can write and `load` can name.
pub record IsStorable (t : ClickTable) : Type 0 where
  pub aligned : IsAligned t
  pub fits : FitsTable t
  pub names : HasNames t.tbl

-- With fuel above the file's length and above what the table needs, as any larger fuel.
load-eq :
    (t : ClickTable) (bs : Bytes)
    → load (some bs) Table.empty
      ≡ recover Table.empty
          (load_table (suc (length bs + length (encode_columns t.tbl))) Table.empty bs)
load-eq t bs = load-load_table _ Table.empty bs (omega arith)

load_whole :
    (t : ClickTable)
    → IsStorable t
    → load (some (encode_table t)) Table.empty ≡ (cut_table t, ok tt)
unfolding recover
load_whole t s =
    load-eq t (encode_table t)
    ∙ ap (recover Table.empty) (
        rw append-nil at (
          (table-Reads t (suc (length (encode_table t) + length (encode_columns t.tbl))) s.aligned
              s.fits s.names (omega arith)).whole
            []))

load_short :
    (t : ClickTable) (q : Bytes) (x : ℕ) (rest : Bytes)
    → IsStorable t
    → encode_table t ≡ q ++ x ∷ rest
    → (e : Error) × (load (some q) Table.empty ≡ (Table.empty, throws e))
unfolding recover flush_tbl
load_short t q x rest s h =
    let (e, thrown) =
      (table-Reads t (suc (length q + length (encode_columns t.tbl))) s.aligned s.fits s.names
          (omega arith)).short
        q x rest h in
    (e, load-eq t q ∙ ap (recover Table.empty) thrown)

-- If the columns of a table are in order and have a cell for each row, its sizes and counts fit the
-- format and no column name has a zero byte: what `save` writes with enough room is loaded into an
-- empty table without an exception, the same columns, number of rows and values, with each string
-- value cut at its first zero byte.
pub load-save :
    (t : ClickTable) (room : ℕ)
    → IsStorable t
    → length (encode_table t) ≤ room
    → (fl : Stream) × (save (some (opened room)) t ≡ ok fl)
      × (load (some fl.written) Table.empty ≡ (cut_table t, ok tt))
unfolding fwrite
load-save t room s h = (
  fwrite (encode_table t) (opened room),
  save_lem t (opened room) s.fits,
  rw (take-all room (encode_table t) h) (load_whole t s),
)

split_take :
    (n : ℕ) (xs : Bytes) → n < length xs → (x : ℕ) × (rest : Bytes) × (xs ≡ take n xs ++ x ∷ rest)
split_take n [] h = absurd (omega arith)
split_take zero (x ∷ xs) h = (x, xs, refl)
split_take (suc n) (y ∷ xs) h =
    let (x, rest, e) = split_take n xs (omega arith) in (x, rest, ap (λ (l : Bytes). y ∷ l) e)

-- When the device has no room for the whole file, `save` still reports success; the file that it
-- leaves is refused by `load` with an exception, and the table that is loaded into stays empty.
pub load-save_full :
    (t : ClickTable) (room : ℕ)
    → IsStorable t
    → room < length (encode_table t)
    → (fl : Stream) × (e : Error) × (save (some (opened room)) t ≡ ok fl)
      × (load (some fl.written) Table.empty ≡ (Table.empty, throws e))
unfolding fwrite
load-save_full t room s h =
    let (x, rest, e) = split_take room (encode_table t) h in
    let (err, refused) = load_short t (take room (encode_table t)) x rest s e in
    (fwrite (encode_table t) (opened room), err, save_lem t (opened room) s.fits, refused)
