-- ===== src/Json2Click/Tests.antt =====
-- src/flexetl/json2click.cpp on small inputs.
use flexetl.Prelude.{
  ℕ, ◌+◌, ◌≤◌, ◌≡◌, refl, true, List, [], ◌∷◌, ◌++◌, false, Option, none, some, arith, length,
  if◌then◌else◌, ◌==◌,
}
use flexetl.Prelude.Int.{pos}
use flexetl.Prelude.Words.{Bytes}
use flexetl.ClickTbl.Table
use flexetl.ClickTbl.Table.{ClickTable, append_all, finish_append}
use flexetl.ClickTbl.Table.Aligned.{IsAligned}
use flexetl.ClickTbl.Stream.{opened}
use flexetl.Json2Click.Event.{Scalar, Members, scalar, list, object, nil, cons, end, member, events}
use flexetl.Json2Click.Line.{Parsed, process_line}
use flexetl.Json2Click.Line.Atomic.{AddsRow, process_line-AddsRow}
use flexetl.Json2Click.Line.Shallow.{row_of, process_line-row_of}
use flexetl.Json2Click.State.{State}
use flexetl.Json2Click.Handler.{on_event, feed}
use flexetl.Json2Click.Line.Verdict.{is_good}
use flexetl.Json2Click.LifeProc.{Moment, FileJob, fgets, lines, life_proc}
use flexetl.Json2Click.LifeProc.Conservation.{saved_rows, good_lines, good_in_round, good_in_rounds}
use flexetl.Json2Click.LifeProc.Moved.{
  all_good, moved_in_round, moved_in_rounds, life_proc-moved_in_rounds,
}
use flexetl.Json2Click.LifeProc.Leftover.{life_proc-saved_rows}
use flexetl.Json2Click.LifeProc.Walk.{LinesFrom, NeverBack}
use flexetl.ClickTbl.Load.{c_string}
use flexetl.Json2Click.LifeProc.Lines.{join, AreLines, lines-AreLines-join}
use flexetl.Json2Click.LifeProc.Stamps.{HasDifferentStamps, life_proc-HasDifferentStamps}
use flexetl.Json2Click.LifeProc.Bounds.{IsBounded, life_proc-IsBounded}

-- {"a":1,"b":[2,3],"c":{"d":4}}
abbrev document : Members
document = member (97 ∷ []) (scalar (Scalar.uint 1)) (
    member (98 ∷ []) (list (cons (scalar (Scalar.uint 2)) (cons (scalar (Scalar.uint 3)) nil)))
      (member (99 ∷ []) (object (member (100 ∷ []) (scalar (Scalar.uint 4)) end)) end))

-- A reader that takes a line that begins with a brace for the document, and any other for an error.
abbrev reads : Bytes → Parsed
reads [] = record { callbacks = []; error = some 0 }
reads (b ∷ l) =
    if b == 123
    then record { callbacks = events (object document); error = none }
    else record { callbacks = []; error = some 0 }

empty-IsAligned : IsAligned Table.empty
empty-IsAligned = record { sorted = tt; level = tt }

process_line-AddsRow_example : AddsRow Table.empty (process_line reads (123 ∷ 10 ∷ []) Table.empty)
process_line-AddsRow_example =
    process_line-AddsRow reads (123 ∷ 10 ∷ []) Table.empty empty-IsAligned

read_document :
    reads (c_string (123 ∷ 10 ∷ [])) ≡ record { callbacks = events (object document); error = none }
unfolding c_string
read_document = refl

process_line-row_of_example : process_line reads (123 ∷ 10 ∷ []) Table.empty ≡ (
  finish_append (row_of document).1 (append_all (row_of document).0 Table.empty),
  (row_of document).1,
)
process_line-row_of_example =
    process_line-row_of reads (123 ∷ 10 ∷ []) document Table.empty read_document
      (refl, (refl, tt, (refl, tt)))

-- Saves after every second row; the second file of a second gets a number.
abbrev start : State
start = record {
  table = Table.empty;
  delay = pos 0;
  block_size = pos 2;
  save_time = 0;
  save_counter = 0;
  error_fs = 0;
  error_json = 0;
  rows = 0;
  data_size = 0;
  calls = [];
  moves = [];
}

-- Three good lines and a bad one.
abbrev four_lines : Bytes
four_lines = 123 ∷ 10 ∷ 123 ∷ 10 ∷ 48 ∷ 10 ∷ 123 ∷ []

abbrev at_nine : Moment
at_nine = record { now = 9; opened = some (opened 1000) }

abbrev job : FileJob
job = record {
  name = 120 ∷ [];
  content = some four_lines;
  clock = λ _. at_nine;
  own = none;
  moved = true;
}

abbrev jobs : List (Option FileJob × Moment)
jobs = (some job, at_nine) ∷ (none, at_nine) ∷ []

good_in_jobs : good_in_rounds reads jobs ≡ 3
unfolding good_in_rounds good_in_round good_lines lines is_good process_line feed c_string fgets
    events on_event
good_in_jobs = refl

never_back : (lo : ℕ) (ls : List Bytes) → lo ≤ 9 → LinesFrom lo 9 (λ _. at_nine) ls
never_back lo [] h = h
never_back lo (line ∷ ls) h = (h, never_back 9 ls (omega arith))

jobs-NeverBack : (lo : ℕ) → lo ≤ 9 → NeverBack lo jobs at_nine
jobs-NeverBack lo h =
    ((h, λ content e. never_back lo (lines (length content) content) h), (omega arith, omega arith))

life_proc-saved_rows_example :
    let s' = life_proc reads true jobs at_nine start in
    (s'.table.row_count ≡ 0)
    × (saved_rows s'.calls ≡ saved_rows start.calls + good_in_rounds reads jobs)
life_proc-saved_rows_example = life_proc-saved_rows reads true jobs at_nine start refl

life_proc-HasDifferentStamps_example :
    HasDifferentStamps (life_proc reads true jobs at_nine start).calls
life_proc-HasDifferentStamps_example =
    life_proc-HasDifferentStamps reads true jobs at_nine start (jobs-NeverBack 0 (omega arith)) refl

life_proc-IsBounded_example : IsBounded 2 2 (life_proc reads true jobs at_nine start)
life_proc-IsBounded_example =
    life_proc-IsBounded reads true jobs at_nine start 2 2 1 (omega arith) (omega arith)
      (omega arith) (omega arith) (jobs-NeverBack 1 (omega arith))
      (refl, omega arith, λ _. refl, tt)

lines-AreLines-join_example :
    (join (lines 7 four_lines) ≡ four_lines) × AreLines 65535 (lines 7 four_lines)
lines-AreLines-join_example = lines-AreLines-join four_lines

life_proc-moved_in_rounds_example :
    (life_proc reads true jobs at_nine start).moves ≡ moved_in_rounds reads false jobs ++ []
life_proc-moved_in_rounds_example = life_proc-moved_in_rounds reads true jobs at_nine start

-- One of its lines is bad.
moved_to_failed : moved_in_rounds reads false jobs ≡ (120 ∷ [], false) ∷ []
unfolding moved_in_rounds moved_in_round all_good lines is_good process_line feed c_string fgets
    events on_event
moved_to_failed = refl
