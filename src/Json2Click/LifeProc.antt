-- ===== src/Json2Click/LifeProc.antt =====
-- src/flexetl/json2click.cpp: `lifeProc`, by rounds of its loop. The queue, the clock and the file
-- system are the environment: each round is given what they answer. A read error, on which the
-- loop over the lines would not end, is left out.
pub mod Conservation
pub mod Keeps
pub mod Moved
pub mod Leftover
pub mod Walk
pub mod Lines
pub mod Stamps
pub mod Bounds
use flexetl.Prelude.{
  ℕ, zero, suc, ◌+◌, ◌-◌, Bool, true, false, not, ◌&&◌, ◌||◌, List, [], ◌∷◌, ◌++◌, Option, none,
  some, length, ltb, ◌==◌, if◌then◌else◌,
}
use flexetl.Prelude.Words.{Bytes}
use flexetl.Result.{Result, ok, throws}
use flexetl.ClickTbl.Table.{ClickTable, flush_tbl}
use flexetl.ClickTbl.Stream.{Stream}
use flexetl.ClickTbl.Load.{c_string}
use flexetl.Json2Click.Line.{Parsed, process_line}
use flexetl.Json2Click.State.{
  State, FileName, SaveCall, named, add_metric, is_zero, call_save, dump,
}
use flexetl.Json2Click.Handler.{is_empty}

-- `fgets(buffer, n + 1, fl)`: at most `n` bytes, up to the end of a line; and what is left.
unfoldable pub fgets : ℕ → Bytes → Bytes × Bytes
fgets zero bs = ([], bs)
fgets (suc n) [] = ([], [])
fgets (suc n) (b ∷ bs) =
    let rest = fgets n bs in if b == 10 then (b ∷ [], bs) else (b ∷ rest.0, rest.1)

-- The strings that the loop over a file reads, by at most so many calls.
unfoldable pub lines : ℕ → Bytes → List Bytes
lines zero bs = []
lines (suc n) [] = []
lines (suc n) (b ∷ bs) = let (line, rest) = fgets 65535 (b ∷ bs) in line ∷ lines n rest

-- The clock and `fopen` at one `dump`.
pub record Moment : Type 0 where
  pub now : ℕ
  pub opened : Option Stream

-- What the environment answers about a file from the queue: its bytes, `none` if `fopen` fails;
-- the moments of its dumps; the stream for its own file; and whether `moveFile` succeeds.
pub record FileJob : Type 0 where
  pub name : Bytes
  pub content : Option Bytes
  pub clock : ℕ → Moment
  pub own : Option Stream
  pub moved : Bool

-- The values of the loop over the lines: `bOk`, `counter` and `readed`.
pub record FileRun : Type 0 where
  pub state : State
  pub good : Bool
  pub counter : ℕ
  pub readed : ℕ

module _ (parse : Bytes → Parsed) where
  -- One line, and the `dump` after it.
  unfoldable pub read_line : Bytes → Moment → FileRun → FileRun
  read_line line m r =
      let s = r.state in
      let (table, good) = process_line parse line s.table in
      let s' = record s {
        table = table;
        error_json = if good then s.error_json else add_metric s.error_json 1;
      } in
      record {
        state = if is_zero s'.block_size then s' else dump false m.now m.opened s';
        good = r.good && good;
        counter = r.counter + 1;
        readed = r.readed + length (c_string line);
      }

  -- The loop over the lines of a file, at the moments that `clock` gives for the lines left.
  unfoldable pub read_lines : (ℕ → Moment) → List Bytes → FileRun → FileRun
  read_lines clock [] r = r
  read_lines clock (line ∷ ls) r = read_lines clock ls (read_line line (clock (length ls)) r)

  -- What is left to do with a file that was read: the metrics, its own `.cdb` file if neither a
  -- delay nor a block size is set, and whether it goes to the good files or to the failed ones.
  unfoldable pub finish_file : Bool → Bytes → Option Stream → FileRun → State × Bool
  finish_file metrics name fl r =
      let s =
        if metrics
        then record r.state {
          rows = add_metric r.state.rows r.counter;
          data_size = add_metric r.state.data_size r.readed;
        }
        else r.state in
      if is_zero s.delay && is_zero s.block_size
      then (let (s', failed) = call_save (named name) fl s in
          (record s' { table = flush_tbl s'.table }, r.good && not failed))
      else (s, r.good)

  unfoldable pub move_file : FileJob → State × Bool → State
  move_file job (s, good) = record s {
    moves = (job.name, good) ∷ s.moves;
    error_fs = if job.moved then s.error_fs else add_metric s.error_fs 1;
  }

  -- A file that was opened. The lines are as many as its bytes at most.
  unfoldable pub process_file : Bool → FileJob → Bytes → State → State
  process_file metrics job content s =
      let start : FileRun = record { state = s; good = true; counter = 0; readed = 0 } in
      let r = read_lines job.clock (lines (length content) content) start in
      move_file job (finish_file metrics job.name job.own r)

  abbrev pub delay_dump : Moment → State → State
  delay_dump m s = if is_zero s.delay then s else dump false m.now m.opened s

  -- A round of the loop: `none` if the wait for the queue ends with nothing. A file that cannot be
  -- opened skips the rest of the round, also the dump.
  unfoldable pub round : Bool → Option FileJob → Moment → State → State
  round metrics none m s = delay_dump m s
  round metrics (some job) m s = if is_empty job.name then delay_dump m s else elim job.content [
    | none ↦ s
    | some content ↦ delay_dump m (process_file metrics job content s)
  ]

  unfoldable pub rounds : Bool → List (Option FileJob × Moment) → State → State
  rounds metrics [] s = s
  rounds metrics ((job, m) ∷ js) s = rounds metrics js (round metrics job m s)

  -- `lifeProc`: the rounds until it is told to stop, and then what is left in memory.
  unfoldable pub life_proc : Bool → List (Option FileJob × Moment) → Moment → State → State
  life_proc metrics js last s =
      let s' = rounds metrics js s in
      if not (is_zero s'.delay) || not (is_zero s'.block_size)
      then dump true last.now last.opened s'
      else s'
