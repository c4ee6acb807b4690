-- ===== src/Delivery.antt =====
-- From the lines of the input files to the rows in the database: `lifeProc` of src/flexetl/json2click.cpp
-- saves files, and `lifeProc` of src/flexetl/click2db.cpp takes them from the directory between the
-- two. The name that `sprintf` and `std::put_time` make of a stamp is a parameter.
pub mod Sender
mod Tests
use flexetl.Prelude.{
  ℕ, ◌+◌, ◌%◌, ◌^◌, ◌≤◌, ◌<◌, ◌≡◌, refl, ap, sym, subst, ◌∙◌, Bool, true, false, suc, ◌&&◌, List,
  [], ◌∷◌, ◌++◌, map, Option, none, some, length, arith, All,
}
use flexetl.Prelude.Words.{Bytes}
use flexetl.StdMap.{Map, find, map_values, AllValues, AllValues-map_values, map_values-IsSorted}
use flexetl.Result.{Result, ok}
use flexetl.ClickTbl.Value.{Values, nil, cons, size}
use flexetl.ClickTbl.Getters.{Platform}
use flexetl.ClickTbl.Column.{ClickColumn}
use flexetl.ClickTbl.Table
use flexetl.ClickTbl.Table.{ClickTable}
use flexetl.ClickTbl.Table.Aligned.{IsAligned}
use flexetl.ClickTbl.Stream.{Stream, opened}
use flexetl.ClickTbl.Save.{save}
use flexetl.ClickTbl.Load.{load}
use flexetl.ClickTbl.Encoding.{encode_table, FitsTable}
use flexetl.ClickTbl.Encoding.Restore.{cut_all}
use flexetl.ClickTbl.Encoding.Columns.{cut_columns, cut_table, HasNames}
use flexetl.ClickTbl.RoundTrip.{IsStorable, load-save}
use flexetl.Json2Click.Line.{Parsed}
use flexetl.Json2Click.State.{SaveCall, FileName, is_zero}
use flexetl.Json2Click
use flexetl.Json2Click.LifeProc.{Moment, FileJob, life_proc}
use flexetl.Json2Click.LifeProc.Conservation.{saved_rows, good_in_rounds}
use flexetl.Json2Click.LifeProc.Keeps.{IsFilled, SavesRows, life_proc-SavesRows}
use flexetl.Json2Click.LifeProc.Leftover.{life_proc-saved_rows}
use flexetl.Click2Db.Convert.{Client}
use flexetl.Click2Db.Convert.Size.{Counts}
use flexetl.Click2Db.Convert.Fuel.{Nests}
use flexetl.Click2Db.Block.{fill_table}
use flexetl.Click2Db.Block.Aligned.{is_flat}
use flexetl.Click2Db.State.{State, Answers, Move, removed}
use flexetl.Click2Db.LifeProc.{is_empty, round, rounds}
use flexetl.Delivery.Sender.{IsReady, IsTaken, takes, IsDelivered, round_taken}

-- The table that is loaded is aligned like the one that was saved.
cut_column : ClickColumn → ClickColumn
cut_column c = record { cells = cut_all c.cells }

cut_columns_lem : (m : Map ClickColumn) → cut_columns m ≡ map_values cut_column m
unfolding cut_columns map_values cut_column
cut_columns_lem [] = refl
cut_columns_lem ((name, c) ∷ m) =
    ap (λ (l : Map ClickColumn). (name, cut_column c) ∷ l) (cut_columns_lem m)

size-cut_all : (vs : Values) → size (cut_all vs) ≡ size vs
unfolding cut_all
size-cut_all nil = refl
size-cut_all (cons v vs) = ap suc (size-cut_all vs)

cut_table-IsAligned : (t : ClickTable) → IsAligned t → IsAligned (cut_table t)
unfolding cut_table cut_column
cut_table-IsAligned t h = rw (cut_columns_lem t.tbl) (record {
  sorted = map_values-IsSorted cut_column t.tbl h.sorted;
  level = AllValues-map_values _ _ cut_column t.tbl (λ c e. size-cut_all c.cells ∙ e) h.level;
})

-- The bytes of the file that a call of `save` left.
abbrev pub content_of : Result Stream → Option Bytes
content_of (ok fl) = some fl.written
content_of _ = none

module _ {Column : Type 0} (p : Platform) (client : Client Column) (types : Map Bytes) where
  -- A saved file that fits the format and the device, and of which the database takes a column.
  pub record IsStored (c : SaveCall) : Type 0 where
    pub fits : FitsTable c.table
    pub names : HasNames c.table.tbl
    pub room : ℕ
    pub enough : length (encode_table c.table) ≤ room
    pub result : c.result ≡ save (some (opened room)) c.table
    pub column : 0 < length (fill_table p client types (cut_table c.table).tbl).block

  -- A round for each saved file, in the order of the saves; the last call is the first in the list.
  abbrev pub answers_of : (FileName → Bytes) → List SaveCall → List Answers
  answers_of name_of [] = []
  answers_of name_of (c ∷ cs) =
      answers_of name_of cs ++ takes types (name_of c.name) (content_of c.result) ∷ []

  rounds-snoc :
      (before : List Answers) (a : Answers) (s : State)
      → rounds p client (before ++ a ∷ []) s ≡ round p client a (rounds p client before s)
  unfolding rounds
  rounds-snoc [] a s = refl
  rounds-snoc (b ∷ before) a s = rounds-snoc before a (round p client b s)

module _ {Column : Type 0} (p : Platform) (client : Client Column) (counts : Counts client)
    (nests : Nests client) (types : Map Bytes)
    (flat : (k name : Bytes) (c : Column)
      → find k types ≡ some name
      → client.create name ≡ some c
      → is_flat client c ≡ true)
    (some_types : is_empty types ≡ false) (name_of : FileName → Bytes) where
  call_taken :
      (c : SaveCall) (s : State)
      → IsFilled c
      → IsStored p client types c
      → IsReady types s
      → IsDelivered types
          (name_of c.name)
          (cut_table c.table)
          s
          (round p client (takes types (name_of c.name) (content_of c.result)) s)
  unfolding cut_table
  call_taken c s (aligned, rows) stored ready =
      let storable : IsStorable c.table = record {
        aligned = aligned;
        fits = stored.fits;
        names = stored.names;
      } in
      let (fl, saved, loaded) = load-save c.table stored.room storable stored.enough in
      round_taken p client counts nests types flat (cut_table c.table) (name_of c.name)
        (content_of c.result) s some_types ready
        (ap (λ r. load (content_of r) Table.empty) (stored.result ∙ saved) ∙ loaded)
        (record {
          aligned = cut_table-IsAligned c.table aligned;
          rows = rows;
          column = stored.column;
        })

  -- What a run with those rounds leaves.
  abbrev pub AllDelivered : List SaveCall → State → State → Type 0
  AllDelivered cs s s' =
      (s'.inserted_rows ≡ (s.inserted_rows + saved_rows cs) % 2 ^ 64)
      × (s'.moves ≡ map (λ (c : SaveCall). removed (name_of c.name)) cs ++ s.moves)
      × (s'.queue ≡ [])
      × (s'.error_db ≡ s.error_db)
      × (s'.error_fs ≡ s.error_fs)

  calls_taken :
      (cs : List SaveCall) (s : State)
      → s.inserted_rows < 2 ^ 64
      → All IsFilled cs
      → All (IsStored p client types) cs
      → IsReady types s
      → let s' = rounds p client (answers_of p client types name_of cs) s in
        IsReady types s' × AllDelivered cs s s'
  unfolding rounds saved_rows cut_table
  calls_taken [] s small filled stored ready =
      (ready, (omega arith, refl, ready.waiting, refl, refl))
  calls_taken (c ∷ cs) s small (f, filled) (st, stored) ready =
      let (ready', (inserted, moves, _, db, fs)) = calls_taken cs s small filled stored ready in
      let before = rounds p client (answers_of p client types name_of cs) s in
      let (ready'', inserted', moves', _, db', fs') = call_taken c before f st ready' in
      rw (rounds-snoc p client types (answers_of p client types name_of cs) _ s) (
        ready'',
        (
          omega (arith, inserted', inserted),
          moves' ∙ ap (λ (m : List Move). removed (name_of c.name) ∷ m) moves,
          ready''.waiting,
          db' ∙ db,
          fs' ∙ fs,
        ),
      )

  -- With a delay or a block size set, an aligned table without rows in memory at the start, and a
  -- description that is not empty and in which no type is an array or a nullable type around an array
  -- or a nullable type: let each file that `lifeProc` of json2click saves fit the format (no zero byte
  -- in the name of a column) and the device, with a column in it that the database takes, and let the
  -- sender be connected, have that description, have no file to send and get each of these files in
  -- turn with its connection, its queries and `moveFile` succeeding. Then at the end no
  -- row is left in memory, the rows that the sender counts as inserted are as many more as there
  -- were good lines in the input files, modulo 2 ^ 64, and each file was removed without an error.
  pub life_proc-rounds :
      (parse : Bytes → Parsed) (metrics : Bool) (js : List (Option FileJob × Moment))
      (last : Moment) (j : Json2Click.State.State) (s : State)
      → j.table.row_count ≡ 0
      → SavesRows j
      → j.calls ≡ []
      → s.inserted_rows < 2 ^ 64
      → IsReady types s
      → let j' = life_proc parse metrics js last j in
        All (IsStored p client types) j'.calls
        → let s' = rounds p client (answers_of p client types name_of j'.calls) s in
          (j'.table.row_count ≡ 0)
          × (s'.inserted_rows ≡ (s.inserted_rows + good_in_rounds parse js) % 2 ^ 64)
          × (s'.moves ≡ map (λ (c : SaveCall). removed (name_of c.name)) j'.calls ++ s.moves)
          × (s'.queue ≡ [])
          × (s'.error_db ≡ s.error_db)
          × (s'.error_fs ≡ s.error_fs)
  life_proc-rounds parse metrics js last j s empty saves no_calls small ready stored =
      let calls = (life_proc parse metrics js last j).calls in
      let (left, count) = life_proc-saved_rows parse metrics js last j empty in
      let (_, _, filled) = life_proc-SavesRows parse metrics js last j saves in
      let (_, (inserted, moves, queue, db, fs)) = calls_taken calls s small filled stored ready in
      let none_saved : saved_rows j.calls ≡ 0 = rw no_calls (unfold saved_rows in refl) in
      let count' : saved_rows calls ≡ good_in_rounds parse js = omega (arith, count, none_saved) in
      (left, inserted ∙ ap (λ n. (s.inserted_rows + n) % 2 ^ 64) count', moves, queue, db, fs)
