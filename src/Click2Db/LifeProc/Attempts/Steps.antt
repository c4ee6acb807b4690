-- ===== src/Click2Db/LifeProc/Attempts/Steps.antt =====
-- The steps of `Click2DB` that leave its files alone.
use flexetl.Prelude.{
  ◌≡◌, refl, ◌∙◌, Bool, true, false, Option, none, some, if◌then◌else◌, inl, inr, Option-cases,
}
use flexetl.Prelude.Words.{Bytes}
use flexetl.StdMap.{Map}
use flexetl.ClickTbl.Getters.{Platform}
use flexetl.Click2Db.Convert.{Client}
use flexetl.ClickTbl.Table.{ClickTable}
use flexetl.Click2Db.Block.{Block, Filling}
use flexetl.Click2Db.State.{
  State, Answers, Sending, failed, same_types, insert_block, insert_filled, send_table,
}
use flexetl.Click2Db.LifeProc.{try_connect, ping, describe}

-- The steps of a round that leave the queue, the loads and the moves alone.
abbrev pub Alike : State → State → Type 0
Alike s s' = (s'.queue ≡ s.queue) × (s'.loads ≡ s.loads) × (s'.moves ≡ s.moves)

pub Alike-if :
    (s : State) (b : Bool) (x y : State) → Alike s x → Alike s y → Alike s (if b then x else y)
Alike-if s true x y h k = h
Alike-if s false x y h k = k

pub Alike-if_fst :
    (s : State) (b : Bool) (x y : State × Sending)
    → Alike s x.0
    → Alike s y.0
    → Alike s (if b then x else y).0
Alike-if_fst s true x y h k = h
Alike-if_fst s false x y h k = k

pub Alike-trans : (s t u : State) → Alike s t → Alike t u → Alike s u
Alike-trans s t u (a, b, c) (d, e, f) = (d ∙ a, e ∙ b, f ∙ c)

pub same : (s : State) → Alike s s
same s = (refl, refl, refl)

pub try_connect-Alike : (b : Bool) (s : State) → Alike s (try_connect b s)
unfolding try_connect
try_connect-Alike b s = Alike-if s s.connected _ _ (same s) (Alike-if s b _ _ (same s) (same s))

pub ping-Alike : (b : Bool) (s : State) → Alike s (ping b s)
unfolding ping
ping-Alike b s = Alike-if s _ _ s (Alike-if s b _ _ (same s) (same s)) (same s)

pub describe-Alike : (d : Option (Map Bytes)) (s : State) → Alike s (describe d s)
unfolding describe
describe-Alike none s = Alike-if s _ _ s (Alike-if s s.connected _ _ (same s) (same s)) (same s)
describe-Alike (some types) s =
    Alike-if s _ _ s (Alike-if s s.connected _ _ (same s) (same s)) (same s)

module _ {Column : Type 0} (p : Platform) (client : Client Column) where
  pub insert_block-Alike :
      (b : Bool) (t : ClickTable) (block : Block Column) (s : State)
      → Alike s (insert_block p client b t block s).0
  unfolding insert_block
  insert_block-Alike b t block s =
      Alike-if_fst s _ (s, failed) _ (same s) (Alike-if_fst s b _ _ (same s) (same s))

  pub insert_filled-Alike :
      (b : Bool) (t : ClickTable) (f : Filling Column) (s : State)
      → Alike s (insert_filled p client b t f s).0
  unfolding insert_filled
  insert_filled-Alike b t f s =
      Alike-if_fst s f.crashed _ _ (same s)
        (Alike-if_fst s f.thrown _ _ (same s) (insert_block-Alike b t f.block _))

  pub send_table-Alike :
      (a : Answers) (t : ClickTable) (s : State) → Alike s (send_table p client a t s).0
  unfolding send_table
  send_table-Alike a t s = elim (Option-cases a.description_again) [
    | inl e ↦ rw e (Alike-if_fst s _ _ _ (same s) (insert_filled-Alike a.inserts t _ s))
    | inr (types, e) ↦ rw e (
        Alike-if_fst s _ _ _
          (Alike-if_fst s (same_types types s.tbl_type) _ _ (insert_block-Alike a.inserts t _ _)
            (insert_filled-Alike a.inserts t _ _))
          (insert_filled-Alike a.inserts t _ s))
  ]
