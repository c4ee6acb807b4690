-- ===== src/Click2Db/LifeProc/Inserted/SendTable.antt =====
-- The metric of the inserted rows over `sendTable`.
use flexetl.Prelude.{◌≡◌, refl, Bool, true, false, inl, inr, Option-cases, if◌then◌else◌}
use flexetl.Prelude.Words.{Bytes}
use flexetl.ClickTbl.Getters.{Platform}
use flexetl.ClickTbl.Table.{ClickTable}
use flexetl.Json2Click.State.{add_metric}
use flexetl.Click2Db.Convert.{Client}
use flexetl.Click2Db.Block.{Block, Filling, fill_table}
use flexetl.Click2Db.State.{
  State, Answers, Sending, sent, failed, crashed, same_types, insert_block, insert_filled,
  send_table,
}

-- `m_sendFailed` and `m_loadFailed`.
abbrev pub failed_dirs : State → Bytes × Bytes
failed_dirs s = (s.send_failed_dir, s.load_failed_dir)

abbrev pub Same : State → State → Type 0
Same s s' = (s'.moves ≡ s.moves) × (failed_dirs s' ≡ failed_dirs s)

-- How a table may be sent: the metric counts its rows exactly if it was.
abbrev pub Counted : ClickTable → State → State × Sending → Type 0
Counted t s (s', sent) = Same s s' × (s'.inserted_rows ≡ add_metric s.inserted_rows t.row_count)
Counted t s (s', failed) = Same s s' × (s'.inserted_rows ≡ s.inserted_rows)
Counted t s (s', crashed) = Same s s' × (s'.inserted_rows ≡ s.inserted_rows)

Counted-if :
    (t : ClickTable) (s : State) (b : Bool) (x y : State × Sending)
    → Counted t s x
    → Counted t s y
    → Counted t s (if b then x else y)
Counted-if t s true x y h k = h
Counted-if t s false x y h k = k

module _ {Column : Type 0} (p : Platform) (client : Client Column) where
  insert_block-Counted :
      (b : Bool) (t : ClickTable) (block : Block Column) (s : State)
      → Counted t s (insert_block p client b t block s)
  unfolding insert_block
  insert_block-Counted b t block s =
      Counted-if t s _ (s, failed) _ ((refl, refl), refl)
        (Counted-if t s b
          (record s { inserted_rows = add_metric s.inserted_rows t.row_count }, sent) (s, failed)
          ((refl, refl), refl) ((refl, refl), refl))

  -- From a state that differs in neither.
  insert_filled-Counted :
      (b : Bool) (t : ClickTable) (f : Filling Column) (s : State)
      → Counted t s (insert_filled p client b t f s)
  unfolding insert_filled
  insert_filled-Counted b t f s =
      let s' = record s { error_types = add_metric s.error_types f.errors } in
      Counted-if t s f.crashed (s', crashed) _ ((refl, refl), refl)
        (Counted-if t s f.thrown (s', failed) _ ((refl, refl), refl)
          (insert_block-Counted b t f.block s'))

  pub send_table-Counted :
      (a : Answers) (t : ClickTable) (s : State) → Counted t s (send_table p client a t s)
  unfolding send_table
  send_table-Counted a t s =
      let f = fill_table p client s.tbl_type t.tbl in
      let s' = record s { error_types = add_metric s.error_types f.errors } in
      elim (Option-cases a.description_again) [
        | inl e ↦ rw e (
            Counted-if t s _ (s', failed) _ ((refl, refl), refl)
              (insert_filled-Counted a.inserts t f s))
        | inr (types, e) ↦
            let s'' = record s' { tbl_type = types } in
            rw e (
              Counted-if t s _ _ _
                (Counted-if t s (same_types types s.tbl_type) _ _
                  (insert_block-Counted a.inserts t f.block s'')
                  (insert_filled-Counted a.inserts t (fill_table p client types t.tbl) s''))
                (insert_filled-Counted a.inserts t f s))
      ]
