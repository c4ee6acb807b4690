-- ===== src/Json2Click/Line.antt =====
-- src/flexetl/json2click.cpp: what `lifeProc` does with one line of a file.
pub mod Atomic
pub mod Deep
pub mod Shallow
pub mod Verdict
use flexetl.Prelude.{ℕ, ◌+◌, Bool, true, false, List, Option, none, some}
use flexetl.Prelude.Words.{Bytes}
use flexetl.ClickTbl.Table.{ClickTable, finish_append}
use flexetl.ClickTbl.Load.{c_string}
use flexetl.Json2Click.Event.{Event}
use flexetl.Json2Click.Handler.{MyHandler, Outcome, running, thrown, init, feed}

-- What `reader.Parse(ss, handler)` does on a text: the callbacks that it makes, and the offset of
-- the error that it stops at, if there is one.
pub record Parsed : Type 0 where
  pub callbacks : List Event
  pub error : Option ℕ

-- `try { ... } catch (...) { ... }` around the parse: the table, and whether the line was good.
unfoldable pub end_line : Option ℕ → Outcome → ClickTable × Bool
end_line none (running h) = (finish_append true h.table, true)
end_line (some offset) (running h) = (finish_append false h.table, false)
end_line error (thrown t) = (finish_append false t, false)

-- One line: `ss` ends at the first zero byte of the buffer.
unfoldable pub process_line : (Bytes → Parsed) → Bytes → ClickTable → ClickTable × Bool
unfolding end_line
process_line parse line t =
    let parsed = parse (c_string line) in
    end_line parsed.error (feed parsed.callbacks (running (init t)))
