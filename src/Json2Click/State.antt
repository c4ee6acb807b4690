-- ===== src/Json2Click/State.antt =====
-- src/flexetl/json2click.h and json2click.cpp: the state of `Json2Click`, and `dump`. Times are
-- whole seconds of the system clock after 1970. A metric is an atomic of 64 bits.
pub mod Dump
pub mod Threw
use flexetl.Prelude.{
  ℕ, suc, ◌+◌, ◌-◌, ◌%◌, ◌^◌, Bool, true, false, not, ◌&&◌, ◌||◌, List, [], ◌∷◌, ◌++◌, Option, none,
  some, ltb, leb, ◌==◌, if◌then◌else◌,
}
use flexetl.Prelude.Int.{ℤ, pos, negsuc}
use flexetl.Prelude.Words.{Bytes}
use flexetl.Result.{Result, ok, throws, fault, out_of_fuel}
use flexetl.ClickTbl.Table
use flexetl.ClickTbl.Table.{ClickTable, flush_tbl}
use flexetl.ClickTbl.Stream.{Stream}
use flexetl.ClickTbl.Save.{save}

-- What names a saved file: the second of the save, and the counter that `sprintf` adds to it.
pub record Stamp : Type 0 where
  pub second : ℕ
  pub counter : Option ℕ

-- A file is named by a stamp, or after its input.
pub data FileName : Type 0 where
  stamped : Stamp → FileName
  named : Bytes → FileName

-- A call of `m_table.save`.
pub record SaveCall : Type 0 where
  pub name : FileName
  pub table : ClickTable
  pub result : Result Stream

pub record State : Type 0 where
  pub table : ClickTable
  pub delay : ℤ
  pub block_size : ℤ
  pub save_time : ℕ
  pub save_counter : ℕ
  pub error_fs : ℕ
  pub error_json : ℕ
  pub rows : ℕ
  pub data_size : ℕ
  -- The calls of `save` and of `moveFile` so far, the last one first; a moved file goes to the good
  -- files or to the failed ones.
  pub calls : List SaveCall
  pub moves : List (Bytes × Bool)

-- `++counter`, `counter += n`
abbrev pub add_metric : ℕ → ℕ → ℕ
add_metric c n = (c + n) % 2 ^ 64

abbrev pub is_zero : ℤ → Bool
is_zero (pos n) = n == 0
is_zero (negsuc n) = false

-- `rowCount() >= m_blockSize`: the `int` becomes a `size_t`.
abbrev pub reaches_block : ℤ → ℕ → Bool
reaches_block (pos b) rows = leb b rows
reaches_block (negsuc b) rows = leb (2 ^ 64 - 1 - b) rows

-- `(now_c - m_saveTime) >= m_delay`
abbrev pub reaches_delay : ℤ → ℕ → ℕ → Bool
reaches_delay (pos d) since now = leb (since + d) now
reaches_delay (negsuc d) since now = leb since (now + suc d)

abbrev pub threw : Result Stream → Bool
threw (throws e) = true
threw _ = false

-- A `save` that throws is counted, and in either case noted.
unfoldable pub call_save : FileName → Option Stream → State → State × Bool
call_save name fl s =
    let result = save fl s.table in
    (
      record s {
        calls = record { name = name; table = s.table; result = result } ∷ s.calls;
        error_fs = if threw result then add_metric s.error_fs 1 else s.error_fs;
      },
      threw result,
    )

-- The stamp of a save, and the counter after it: another save within the second that the last one
-- fell in gets the next number.
unfoldable pub next_stamp : ℕ → State → Stamp × ℕ
next_stamp now s =
    let counter = s.save_counter + 1 in
    if now == s.save_time
    then (record { second = now; counter = if ltb 0 counter then some counter else none }, counter)
    else (record { second = now; counter = none }, 0)

-- `dump` from the tests on: save, then drop the rows.
unfoldable pub save_now : ℕ → Option Stream → State → State
unfolding next_stamp call_save
save_now now fl s =
    let (stamp, counter) = next_stamp now s in
    let (s', failed) = call_save (stamped stamp) fl (record s { save_counter = counter }) in
    record s' { table = flush_tbl s'.table; save_time = now }

-- `dump(bForced)`, at the time that the clock shows and with what `fopen` would return.
unfoldable pub dump : Bool → ℕ → Option Stream → State → State
dump forced now fl s =
    let row_count_over =
      if not (is_zero s.block_size) then reaches_block s.block_size s.table.row_count else false in
    let time_over =
      if not (is_zero s.delay) then reaches_delay s.delay s.save_time now else false in
    if s.table.row_count == 0
    then s
    else (if not forced && s.save_time == 0
        then record s { save_time = now }
        else (if not forced && not row_count_over && not time_over then s else save_now now fl s))
