-- ===== src/Metrics/Registry.antt =====
-- src/stem/metrics: `connect`, and `agregateProc` by rounds of its loop. The counters of the program
-- are cells of the memory that they share with the views.
pub mod Connect
pub mod Conservation
use flexetl.Prelude.{
  ℕ, ◌+◌, ◌*◌, ◌%◌, ◌^◌, Bool, true, false, List, [], ◌∷◌, ◌++◌, Option, none, some, ◌==◌,
  if◌then◌else◌, length,
}
use flexetl.Prelude.Words.{Bytes}
use flexetl.StdMap.{Map, find, update}
use flexetl.ClickTbl.Getters.Decimal.{show_unsigned}
use flexetl.Metrics.Counters.{
  Memory, set, Kind, counter_u, counter_d, collector_u, fetch_add, collected, show,
}

-- `CounterViewImpl`: the type of the counter and its cell.
pub record View : Type 0 where
  pub kind : Kind
  pub cell : ℕ

abbrev pub same_kind : Kind → Kind → Bool
same_kind counter_u counter_u = true
same_kind counter_d counter_d = true
same_kind collector_u collector_u = true
same_kind _ _ = false

-- `connect` of a counter with this cell, under the name that `getName` made: the counters and the
-- cell that the counter has now, `none` if it throws.
unfoldable pub connect : Bytes → View → Map View → Option (Map View × ℕ)
connect name counter views = elim (find name views) [
  | none ↦ some (update counter name (λ _. counter) views, counter.cell)
  | some view ↦ if same_kind view.kind counter.kind then some (views, view.cell) else none
]

-- What `flush` takes out of a cell, for one entry of the map.
abbrev pub Reading : Type 0
Reading = Bytes × View × ℕ

-- The loop of `agregateProc`: `exchange(0)` on each cell, in the order of the names.
unfoldable pub flush_all : Map View → Memory → List Reading × Memory
flush_all [] memory = ([], memory)
flush_all ((name, view) ∷ views) memory =
    let (readings, memory') = flush_all views (set view.cell 0 memory) in
    ((name, view, memory view.cell) ∷ readings, memory')

-- The text of the readings: a line for each.
unfoldable pub buffer : (ℕ → Bytes) → ℕ → List Reading → Bytes
buffer show_fixed seconds [] = []
buffer show_fixed seconds ((name, view, r) ∷ readings) =
    name
    ++ b' ' ∷ []
    ++ show show_fixed view.kind r
    ++ b' ' ∷ []
    ++ show_unsigned seconds
    ++ b'\n' ∷ []
    ++ buffer show_fixed seconds readings

-- The memory, the minute of the last report, and the readings and texts so far, the last first.
pub record State : Type 0 where
  pub views : Map View
  pub memory : Memory
  pub last_minute : ℕ
  pub readings : List Reading
  pub queue : List Bytes

-- A round of `agregateProc` at a minute of the clock.
unfoldable pub agregate : (ℕ → Bytes) → ℕ → State → State
agregate show_fixed minute s =
    let (readings, memory) = flush_all s.views s.memory in
    if minute == s.last_minute then s else record s {
      memory = memory;
      last_minute = minute;
      readings = readings ++ s.readings;
      queue =
          if length s.views == 0
          then s.queue
          else s.queue ++ buffer show_fixed (minute * 60) readings ∷ [];
    }

-- What the threads of the program do between: `+=` on the counter with a cell, where `fixed` is what
-- a `counter_d` makes of its argument, and `connect`, which is serialised with `agregateProc` by the
-- mutex.
pub data Event : Type 0 where
  add_unit : ℕ → ℕ → Event
  add_fixed : ℕ → ℕ → Event
  add_sample : ℕ → ℕ → Event
  connects : Bytes → View → Event
  round : ℕ → Event

unfoldable pub step : (ℕ → Bytes) → Event → State → State
step show_fixed (add_unit i n) s = record s { memory = fetch_add i n s.memory }
step show_fixed (add_fixed i fixed) s = record s { memory = fetch_add i fixed s.memory }
step show_fixed (add_sample i n) s = record s { memory = fetch_add i (collected n) s.memory }
step show_fixed (connects name counter) s = elim (connect name counter s.views) [
  | none ↦ s
  | some (views, cell) ↦ record s { views = views }
]
step show_fixed (round minute) s = agregate show_fixed minute s

unfoldable pub run : (ℕ → Bytes) → List Event → State → State
run show_fixed [] s = s
run show_fixed (e ∷ events) s = run show_fixed events (step show_fixed e s)
