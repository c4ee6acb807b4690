-- ===== src/Delivery/Sender.antt =====
-- src/flexetl/click2db.cpp: a round of `lifeProc` with a file that the database takes.
use flexetl.Prelude.{
  ℕ, ◌<◌, ◌≡◌, refl, ap, sym, ◌∙◌, true, false, [], ◌∷◌, Option, some, length, arith, inl, inr,
  Bool-cases, if◌then◌else◌, ◌/◌, ltb, subst,
}
use flexetl.Prelude.Words.{Bytes}
use flexetl.StdMap.{Map, find, same_key_self}
use flexetl.Result.{Result, ok}
use flexetl.Queue.{remove_at}
use flexetl.ClickTbl.Getters.{Platform}
use flexetl.ClickTbl.Table
use flexetl.ClickTbl.Table.{ClickTable}
use flexetl.ClickTbl.Table.Aligned.{IsAligned}
use flexetl.ClickTbl.Load.{load}
use flexetl.Json2Click.State.{add_metric}
use flexetl.Click2Db.Convert.{Client}
use flexetl.Click2Db.Convert.Size.{Counts}
use flexetl.Click2Db.Convert.Fuel.{Nests}
use flexetl.Click2Db.Block.{Block, fill_table}
use flexetl.Click2Db.Block.Fill.{HasRows}
use flexetl.Click2Db.Block.Aligned.{is_flat, fill_table-IsAligned}
use flexetl.Click2Db.State.{
  State, Answers, sent, removed, same_types, block_rows, insert_block, insert_filled, send_table,
}
use flexetl.Click2Db.LifeProc.{
  is_empty, do_proc, try_connect, ping, describe, process_file, finish_file, move_file, next_file,
  round,
}

-- The sender between two files: connected, with a description of the table, and nothing to do.
pub record IsReady (types : Map Bytes) (s : State) : Type 0 where
  pub connected : s.connected ≡ true
  pub described : s.tbl_type ≡ types
  pub current : s.update_tbl_desc ≡ false
  pub waiting : s.queue ≡ []
  pub alive : s.crashed ≡ false

-- A round with one new file, in which all that the sender asks for succeeds.
abbrev pub takes : Map Bytes → Bytes → Option Bytes → Answers
takes types name content = record {
  arrivals = name ∷ [];
  connects = true;
  pings = true;
  description = some types;
  pick = some 0;
  content = content;
  description_again = some types;
  inserts = true;
  moved = true;
}

same_types_self : (m : Map Bytes) → same_types m m ≡ true
unfolding same_types
same_types_self [] = refl
same_types_self ((k, v) ∷ m) = rw (same_key_self k, same_key_self v, same_types_self m) refl

-- The state after a round: what is new of it.
abbrev pub IsDelivered : Map Bytes → Bytes → ClickTable → State → State → Type 0
IsDelivered types name t s s' =
    IsReady types s'
    × (s'.inserted_rows ≡ add_metric s.inserted_rows t.row_count)
    × (s'.moves ≡ removed name ∷ s.moves)
    × (s'.loads ≡ name ∷ s.loads)
    × (s'.error_db ≡ s.error_db)
    × (s'.error_fs ≡ s.error_fs)

module _ {Column : Type 0} (p : Platform) (client : Client Column) (counts : Counts client)
    (nests : Nests client) (types : Map Bytes)
    (flat : (k name : Bytes) (c : Column)
      → find k types ≡ some name
      → client.create name ≡ some c
      → is_flat client c ≡ true) where
  -- An aligned table with rows, of which the block gets a column.
  pub record IsTaken (t : ClickTable) : Type 0 where
    pub aligned : IsAligned t
    pub rows : 0 < t.row_count
    pub column : 0 < length (fill_table p client types t.tbl).block

  block_rows_lem :
      (n : ℕ) (b : Block Column) → HasRows p client n b → 0 < length b → block_rows p client b ≡ n
  block_rows_lem n [] h l = absurd (omega arith)
  block_rows_lem n ((name, c) ∷ b) h l = h.0

  insert_taken :
      (t : ClickTable) (s : State)
      → IsTaken t
      → insert_block p client true t (fill_table p client types t.tbl).block s
        ≡ (record s { inserted_rows = add_metric s.inserted_rows t.row_count }, sent)
  unfolding insert_block
  insert_taken t s h =
      let (_, _, rows, _) = fill_table-IsAligned p client counts nests types flat t h.aligned in
      rw (block_rows_lem t.row_count _ rows h.column) (ground (arith, h.rows))

  -- The state after a table was inserted.
  abbrev pub accept : ClickTable → State → State
  accept t s = record s {
    error_types = add_metric s.error_types (fill_table p client types t.tbl).errors;
    inserted_rows = add_metric s.inserted_rows t.row_count;
    tbl_type = types;
  }

  send_taken :
      (t : ClickTable) (name : Bytes) (content : Option Bytes) (s : State)
      → s.tbl_type ≡ types
      → IsTaken t
      → send_table p client (takes types name content) t s ≡ (accept t s, sent)
  unfolding send_table insert_filled
  send_taken t name content s d h =
      let f = fill_table p client types t.tbl in
      let (going, alive, _, _) =
        fill_table-IsAligned p client counts nests types flat t h.aligned in
      let inserted =
        insert_taken t
          (record s { error_types = add_metric s.error_types f.errors; tbl_type = types }) h in
      elim (Bool-cases f.unknown_types) [
        | inl e ↦ rw (d, e, going, alive, same_types_self types) inserted
        | inr e ↦ rw (d, e, going, alive) inserted
      ]

  process_sent :
      (a : Answers) (name : Bytes) (t : ClickTable) (s sent_state : State)
      → load a.content Table.empty ≡ (t, ok tt)
      → send_table p client a t (record s { empty_counter = 0; queue = []; loads = name ∷ s.loads })
        ≡ (sent_state, sent)
      → process_file p client a (0, name) [] s ≡ move_file a.moved (removed name) sent_state
  unfolding process_file finish_file
  process_sent a name t s sent_state l e =
      let ready = record s { empty_counter = 0; queue = []; loads = name ∷ s.loads } in
      let loaded : (load a.content Table.empty).1 ≡ ok tt =
        ap (λ (x : ClickTable × Result Unit). x.1) l in
      let going = ap (λ (x : ClickTable × Result Unit). send_table p client a x.0 ready) l ∙ e in
      rw (process_file, loaded, going) refl

  -- A file from the queue, whatever else waited there.
  process_taken :
      (t : ClickTable) (name : Bytes) (content : Option Bytes) (s : State)
      → s.connected ≡ true
      → s.tbl_type ≡ types
      → s.update_tbl_desc ≡ false
      → s.crashed ≡ false
      → load content Table.empty ≡ (t, ok tt)
      → IsTaken t
      → IsDelivered types name t s (process_file p client (takes types name content) (0, name) [] s)
  unfolding move_file
  process_taken t name content s connected described current alive l h =
      let ready = record s { empty_counter = 0; queue = []; loads = name ∷ s.loads } in
      let ready' : IsReady types (move_file true (removed name) (accept t ready)) = record {
        connected = connected;
        described = refl;
        current = current;
        waiting = refl;
        alive = alive;
      } in
      rw
        (process_sent (takes types name content) name t s _ l
          (send_taken t name content ready described h))
        (ready', refl, refl, refl, refl, refl)

  next_taken :
      (a : Answers) (name : Bytes) (s : State)
      → a.pick ≡ some 0
      → s.queue ≡ (0, name) ∷ []
      → next_file p client a s ≡ process_file p client a (0, name) [] s
  unfolding next_file remove_at
  next_taken a name s e q = rw (e, q) refl

  -- What a round does before it takes a file from the queue.
  abbrev prepared : Bytes → State → State
  prepared name s = record s {
    queue = (0, name) ∷ [];
    empty_counter = if ltb 60 (s.empty_counter / 2) then 0 else s.empty_counter;
  }

  prepare_lem :
      (a : Answers) (name : Bytes) (s : State)
      → is_empty types ≡ false
      → a.arrivals ≡ name ∷ []
      → a.pings ≡ true
      → IsReady types s
      → let connected = try_connect a.connects (do_proc a.arrivals s) in
        (connected.connected ≡ true)
        × (describe a.description (ping a.pings connected) ≡ prepared name s)
  unfolding do_proc try_connect ping describe
  prepare_lem a name s some_types e q r =
      rw (e, q, r.waiting, r.connected)
        (
          refl,
          elim (Bool-cases (ltb 60 (s.empty_counter / 2))) [
            | inl late ↦ rw (late, r.current, r.described, some_types) refl
            | inr early ↦ rw (early, r.current, r.described, some_types) refl
          ],
        )

  round-prepared :
      (a : Answers) (name : Bytes) (s : State)
      → is_empty types ≡ false
      → a.arrivals ≡ name ∷ []
      → a.pings ≡ true
      → IsReady types s
      → round p client a s ≡ next_file p client a (prepared name s)
  unfolding round
  round-prepared a name s some_types e q r =
      let (connected, described) = prepare_lem a name s some_types e q r in
      rw (described, connected, r.described, some_types, r.alive) refl

  pub round_taken :
      (t : ClickTable) (name : Bytes) (content : Option Bytes) (s : State)
      → is_empty types ≡ false
      → IsReady types s
      → load content Table.empty ≡ (t, ok tt)
      → IsTaken t
      → IsDelivered types name t s (round p client (takes types name content) s)
  round_taken t name content s some_types r l h =
      let a = takes types name content in
      let s' = prepared name s in
      subst (IsDelivered types name t s)
        (sym (round-prepared a name s some_types refl refl r ∙ next_taken a name s' refl refl))
        (process_taken t name content s' r.connected r.described r.current r.alive l h)
