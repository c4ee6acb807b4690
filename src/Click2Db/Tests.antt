-- ===== src/Click2Db/Tests.antt =====
-- src/flexetl/click2db.cpp on small inputs.
use flexetl.Prelude.{◌+◌, ◌*◌, ◌≤◌, ◌≡◌, refl, true, false, List, [], ◌∷◌, none, some, length}
use flexetl.Prelude.Words.{Bytes}
use flexetl.StdMap.{Map, find}
use flexetl.StdMap.Key.{compare_bytes}
use flexetl.ClickTbl.Value.{int, nil, cons}
use flexetl.ClickTbl.Column.{ClickColumn}
use flexetl.Click2Db.Block.{fill_table}
use flexetl.Click2Db.Convert.{
  Terminal, terminal, vector_of, cell_of, append_cells, convert_as, convert_in,
  column_to_click_column,
}
use flexetl.ClickTbl.Getters.Toy.{platform}
use flexetl.Queue.{times}
use flexetl.Click2Db.Toy.{Column, client}
use flexetl.Click2Db.Block.Fill.{
  converted, usable, IsSafe, usable_columns, fill_table-usable_columns,
}
use flexetl.Click2Db.State.{State, Answers}
use flexetl.Click2Db.LifeProc.{rounds}
use flexetl.Click2Db.LifeProc.Attempts.{all_arrived, rounds-IsFresh}
use flexetl.Click2Db.LifeProc.Attempts.Count.{IsFresh, handled, attempts}

-- The database knows the column "a" only.
abbrev types : Map Bytes
types = (97 ∷ [], []) ∷ []

abbrev one_row : ClickColumn
one_row = record { cells = cons (int 5) nil }

abbrev columns : Map ClickColumn
columns = (97 ∷ [], one_row) ∷ (98 ∷ [], one_row) ∷ []

abbrev one_number : Column
one_number = record { kind = terminal Terminal.int64; rows = 1; inner = 0 }

IsSafe-columns : IsSafe platform client types columns
unfolding IsSafe converted column_to_click_column convert_in convert_as vector_of append_cells find
    compare_bytes cell_of
IsSafe-columns = (λ h. absurd cc, λ h. absurd cc, (λ h. absurd cc, λ h. absurd cc, tt))

usable_one : usable_columns platform client types columns ≡ (97 ∷ [], one_number) ∷ []
unfolding usable_columns usable converted column_to_click_column convert_in convert_as vector_of
    append_cells find compare_bytes cell_of
usable_one = refl

fill_table-usable_columns_example :
    let f = fill_table platform client types columns in
    (f.thrown ≡ false)
    × (f.crashed ≡ false)
    × (f.block ≡ usable_columns platform client types columns)
    × (f.errors + length f.block ≡ 2)
fill_table-usable_columns_example =
    fill_table-usable_columns platform client types columns 1 IsSafe-columns
      (rw usable_one (refl, tt))

abbrev start : State
start = record {
  send_failed_dir = b'f' ∷ [];
  load_failed_dir = b'b' ∷ [];
  connected = false;
  tbl_type = [];
  update_tbl_desc = true;
  empty_counter = 0;
  queue = [];
  error_db = 0;
  error_fs = 0;
  error_types = 0;
  inserted_rows = 0;
  loads = [];
  moves = [];
  crashed = false;
}

-- The file "x" holds a table without columns, which the database never takes.
abbrev arrives : Answers
arrives = record {
  arrivals = (120 ∷ []) ∷ [];
  connects = true;
  pings = true;
  description = some types;
  pick = some 0;
  content = some (46 ∷ 99 ∷ 100 ∷ 98 ∷ 0 ∷ 0 ∷ 0 ∷ 0 ∷ 0 ∷ 0 ∷ 0 ∷ 0 ∷ 0 ∷ 0 ∷ 0 ∷ 0 ∷ []);
  description_again = none;
  inserts = true;
  moved = true;
}

abbrev again : Answers
again = record arrives { arrivals = [] }

abbrev answers : List Answers
answers = arrives ∷ again ∷ again ∷ again ∷ []

rounds-IsFresh_example :
    let s' = rounds platform client answers start in
    IsFresh s'.queue
    × ((k : Bytes)
        → handled k s' ≡ handled k start + times k (all_arrived platform client answers start))
    × ((k : Bytes)
        → attempts k s'
          ≤ attempts k start + 3 * times k (all_arrived platform client answers start))
rounds-IsFresh_example = rounds-IsFresh platform client answers start tt

-- Each file holds the number 5 in the column "a".
abbrev one_number_file : Bytes
one_number_file =
    46 ∷ 99 ∷ 100 ∷ 98 ∷ 0 ∷ 0 ∷ 0 ∷ 0 ∷ 1 ∷ 0 ∷ 0 ∷ 0 ∷ 1 ∷ 0 ∷ 0 ∷ 0 ∷ 1 ∷ 0 ∷ 0 ∷ 0 ∷ 97 ∷ 3 ∷ 0
    ∷ 0 ∷ 0 ∷ 5 ∷ 0 ∷ 0 ∷ 0 ∷ 0 ∷ 0 ∷ 0 ∷ 0 ∷ []

-- A file that is refused once and then taken.
abbrev refused_first : List Answers
refused_first =
    record arrives { content = some one_number_file; inserts = false }
    ∷ record again { content = some one_number_file }
    ∷ []
