-- ===== src/Delivery/Tests.antt =====
-- A run from the lines to the database, on a small input.
use flexetl.Prelude.{
  ℕ, ◌+◌, ◌%◌, ◌^◌, ◌≡◌, refl, sym, ap, Ordering, Bool, true, false, List, [], ◌∷◌, ◌++◌, map,
  Option, All, none, some, arith, if◌then◌else◌, ◌==◌,
}
use flexetl.Prelude.Int.{pos}
use flexetl.Prelude.Words.{Bytes, to_le}
use flexetl.ClickTbl.Value.{Values, uint, nil, cons}
use flexetl.ClickTbl.Save.{save}
use flexetl.ClickTbl.Table
use flexetl.ClickTbl.Table.{ClickTable}
use flexetl.ClickTbl.Stream.{opened}
use flexetl.Json2Click.Event.{Scalar, scalar, object, end, member, events, value_of}
use flexetl.Json2Click.Line.{Parsed}
use flexetl.Json2Click
use flexetl.Json2Click.State.{
  SaveCall, stamped, FileName, named, dump, save_now, call_save, next_stamp,
}
use flexetl.Json2Click.LifeProc
use flexetl.Json2Click.LifeProc.{
  Moment, FileJob, fgets, lines, read_line, read_lines, finish_file, move_file, process_file, round,
  life_proc,
}
use flexetl.Json2Click.Handler
use flexetl.Json2Click.Handler.{on_event, feed, clear_array}
use flexetl.Json2Click.Line.{process_line, end_line}
use flexetl.ClickTbl.Load.{c_string}
use flexetl.StdMap.{Map, find, update, map_values}
use flexetl.StdMap.Key.{compare_bytes}
use flexetl.ClickTbl.Column
use flexetl.ClickTbl.Value.{emplace_back, of_int, resize}
use flexetl.ClickTbl.Encoding.{encode, encode_columns, encode_table, FitsTable}
use flexetl.ClickTbl.Getters.Toy.{platform}
use flexetl.Click2Db.Toy.{Column, client, counts, nests}
use flexetl.ClickTbl.Encoding.Columns.{cut_columns, cut_table}
use flexetl.ClickTbl.Encoding.Restore.{cut_all}
use flexetl.Json2Click.LifeProc.Conservation.{good_in_rounds}
use flexetl.Click2Db.Convert.{
  vector_of, cell_of, append_cells, convert_as, convert_in, column_to_click_column,
}
use flexetl.Click2Db.Block.{append_column, fill_column, fill_columns, fill_table}
use flexetl.Click2Db.Block.Aligned.{is_flat}
use flexetl.Click2Db.State.{State, removed}
use flexetl.Click2Db.LifeProc.{rounds}
use flexetl.Delivery.Sender.{IsReady}
use flexetl.Delivery.{IsStored, answers_of, life_proc-rounds}

-- A reader that takes a line that begins with a brace for {"a":5}, and any other for an error.
abbrev reads : Bytes → Parsed
reads [] = record { callbacks = []; error = some 0 }
reads (b ∷ l) =
    if b == 123
    then record {
      callbacks = events (object (member (97 ∷ []) (scalar (Scalar.uint 5)) end));
      error = none;
    }
    else record { callbacks = []; error = some 0 }

-- Saves at the second row.
abbrev start : Json2Click.State.State
start = record {
  table = Table.empty;
  delay = pos 0;
  block_size = pos 2;
  save_time = 0;
  save_counter = 0;
  error_fs = 0;
  error_json = 0;
  rows = 0;
  data_size = 0;
  calls = [];
  moves = [];
}

abbrev at_nine : Moment
at_nine = record { now = 9; opened = some (opened 1000) }

-- Three good lines and a bad one.
abbrev job : FileJob
job = record {
  name = 120 ∷ [];
  content = some (123 ∷ 10 ∷ 123 ∷ 10 ∷ 48 ∷ 10 ∷ 123 ∷ []);
  clock = λ _. at_nine;
  own = none;
  moved = true;
}

abbrev jobs : List (Option FileJob × Moment)
jobs = (some job, at_nine) ∷ (none, at_nine) ∷ []

abbrev calls : List SaveCall
calls = (life_proc reads true jobs at_nine start).calls

abbrev table_of : ℕ → Values → ClickTable
table_of n vs = record { tbl = (97 ∷ [], record { cells = vs }) ∷ []; row_count = n }

abbrev call_of : ℕ → ClickTable → SaveCall
call_of n t = record {
  name = stamped (record { second = 9; counter = some n });
  table = t;
  result = save (some (opened 1000)) t;
}

abbrev one_row : ClickTable
one_row = table_of 1 (cons (uint 5) nil)

abbrev two_rows : ClickTable
two_rows = table_of 2 (cons (uint 5) (cons (uint 5) nil))

calls_two : calls ≡ call_of 2 one_row ∷ call_of 1 two_rows ∷ []
unfolding life_proc round LifeProc.rounds read_line read_lines process_file move_file finish_file
    lines fgets dump save_now next_stamp call_save process_line end_line feed c_string events
    on_event value_of clear_array Handler.append Table.append Table.finish_append Table.flush_tbl
    Table.fill_nulls Column.append Column.revert update map_values compare_bytes emplace_back of_int
    resize
calls_two = refl

-- The database knows the column "a", as a number.
abbrev types : Map Bytes
types = (97 ∷ [], []) ∷ []

one_row-FitsTable : FitsTable one_row
one_row-FitsTable = record {
  columns = (omega arith, (omega arith, tt), tt);
  column_count = omega arith;
  row_count = omega arith;
}

two_rows-FitsTable : FitsTable two_rows
two_rows-FitsTable = record {
  columns = (omega arith, (omega arith, (omega arith, tt)), tt);
  column_count = omega arith;
  row_count = omega arith;
}

one_row-IsStored : IsStored platform client types (call_of 2 one_row)
unfolding encode_table encode_columns encode to_le c_string fill_table fill_columns fill_column find
    column_to_click_column convert_in convert_as append_cells append_column cut_table cut_columns
    cut_all vector_of cell_of compare_bytes
one_row-IsStored = record {
  fits = one_row-FitsTable;
  names = (refl, tt);
  room = 1000;
  enough = omega arith;
  result = refl;
  column = omega arith;
}

two_rows-IsStored : IsStored platform client types (call_of 1 two_rows)
unfolding encode_table encode_columns encode to_le c_string fill_table fill_columns fill_column find
    column_to_click_column convert_in convert_as append_cells append_column cut_table cut_columns
    cut_all vector_of cell_of compare_bytes
two_rows-IsStored = record {
  fits = two_rows-FitsTable;
  names = (refl, tt);
  room = 1000;
  enough = omega arith;
  result = refl;
  column = omega arith;
}

only_type :
    (o : Ordering) (name : Bytes)
    → ◌≡◌ {A = Option Bytes}
        (elim o [ Ordering.lt ↦ none | Ordering.eq ↦ some [] | Ordering.gt ↦ none ])
        (some name)
    → [] ≡ name
only_type Ordering.lt name h = absurd cc
only_type Ordering.eq name h = cc
only_type Ordering.gt name h = absurd cc

abbrev flat_of : Option Column → Bool
flat_of none = true
flat_of (some c) = is_flat client c

types_flat :
    (k name : Bytes) (c : Column)
    → find k types ≡ some name
    → client.create name ≡ some c
    → is_flat client c ≡ true
unfolding find is_flat
types_flat k name c h made =
    let e = only_type (compare_bytes k (97 ∷ [])) name h in sym (ap flat_of (rw (sym e) at made))

-- Connected, with nothing to send.
abbrev ready : State
ready = record {
  send_failed_dir = [];
  load_failed_dir = [];
  connected = true;
  tbl_type = types;
  update_tbl_desc = false;
  empty_counter = 0;
  queue = [];
  error_db = 0;
  error_fs = 0;
  error_types = 0;
  inserted_rows = 0;
  loads = [];
  moves = [];
  crashed = false;
}

ready-IsReady : IsReady types ready
ready-IsReady = record {
  connected = refl;
  described = refl;
  current = refl;
  waiting = refl;
  alive = refl;
}

abbrev name_of : FileName → Bytes
name_of (stamped st) = st.second ∷ []
name_of (named name) = name

stored : All (IsStored platform client types) calls
stored = rw calls_two (one_row-IsStored, (two_rows-IsStored, tt))

life_proc-rounds_example :
    let j' = life_proc reads true jobs at_nine start in
    let s' = rounds platform client (answers_of platform client types name_of j'.calls) ready in
    (j'.table.row_count ≡ 0)
    × (s'.inserted_rows ≡ (0 + good_in_rounds reads jobs) % 2 ^ 64)
    × (s'.moves ≡ map (λ (c : SaveCall). removed (name_of c.name)) j'.calls ++ [])
    × (s'.queue ≡ [])
    × (s'.error_db ≡ 0)
    × (s'.error_fs ≡ 0)
life_proc-rounds_example =
    life_proc-rounds platform client counts nests types types_flat refl name_of reads true jobs
      at_nine start ready refl (refl, record { sorted = tt; level = tt }, tt) refl (omega arith)
      ready-IsReady stored
