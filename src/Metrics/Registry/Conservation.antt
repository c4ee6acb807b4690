-- ===== src/Metrics/Registry/Conservation.antt =====
-- What the counters of src/stem/metrics report over time.
use flexetl.Prelude.{
  ℕ, ◌+◌, ◌^◌, ◌<◌, ◌≡◌, refl, List, [], ◌∷◌, ◌++◌, arith, inl, inr, Bool-cases, Option-cases, ◌==◌,
  if◌then◌else◌,
}
use flexetl.Prelude.Words.{Bytes}
use flexetl.StdMap.{Map}
use flexetl.Metrics.Counters.{Memory, set, fetch_add, collected}
use flexetl.Metrics.Registry.{
  View, Reading, connect, flush_all, State, agregate, Event, add_unit, add_fixed, add_sample,
  connects, round, step, run,
}

-- What was read from a cell, and what is added to it.
abbrev pub read_from : ℕ → List Reading → ℕ
read_from i [] = 0
read_from i ((name, view, r) ∷ readings) = (if i == view.cell then r else 0) + read_from i readings

abbrev pub added_by : ℕ → Event → ℕ
added_by i (add_unit j n) = if i == j then n else 0
added_by i (add_fixed j n) = if i == j then n else 0
added_by i (add_sample j n) = if i == j then collected n else 0
added_by i (connects name counter) = 0
added_by i (round minute) = 0

abbrev pub added : ℕ → List Event → ℕ
added i [] = 0
added i (e ∷ events) = added_by i e + added i events

read_from-append :
    (i : ℕ) (a b : List Reading) → read_from i (a ++ b) ≡ read_from i a + read_from i b
read_from-append i [] b = omega arith
read_from-append i (x ∷ a) b = omega (arith, read_from-append i a b)

flush_all_lem :
    (i : ℕ) (views : Map View) (memory : Memory)
    → let (readings, memory') = flush_all views memory in
      memory' i + read_from i readings ≡ memory i
unfolding flush_all
flush_all_lem i [] memory = omega arith
flush_all_lem i ((name, view) ∷ views) memory =
    ground (arith, flush_all_lem i views (set view.cell 0 memory))

-- What a cell holds and what was read from it.
abbrev pub total : ℕ → State → ℕ
total i s = s.memory i + read_from i s.readings

total-agregate :
    (show_fixed : ℕ → Bytes) (i minute : ℕ) (s : State)
    → total i (agregate show_fixed minute s) ≡ total i s
unfolding agregate
total-agregate show_fixed i minute s = elim (Bool-cases (minute == s.last_minute)) [
  | inl e ↦ rw (agregate, e) refl
  | inr e ↦
      let readings = (flush_all s.views s.memory).0 in
      rw (agregate, e)
        (omega (arith, flush_all_lem i s.views s.memory, read_from-append i readings s.readings))
]

fetch_add_total :
    (i j n : ℕ) (memory : Memory)
    → memory i + (if i == j then n else 0) < 2 ^ 64
    → fetch_add j n memory i ≡ memory i + (if i == j then n else 0)
unfolding fetch_add
fetch_add_total i j n memory h = ground arith

total-step :
    (show_fixed : ℕ → Bytes) (i : ℕ) (e : Event) (s : State)
    → total i s + added_by i e < 2 ^ 64
    → total i (step show_fixed e s) ≡ total i s + added_by i e
unfolding step
total-step show_fixed i (add_unit j n) s h =
    omega (arith, fetch_add_total i j n s.memory (omega arith))
total-step show_fixed i (add_fixed j n) s h =
    omega (arith, fetch_add_total i j n s.memory (omega arith))
total-step show_fixed i (add_sample j n) s h =
    omega (arith, fetch_add_total i j (collected n) s.memory (omega arith))
total-step show_fixed i (connects name counter) s h =
    elim (Option-cases (connect name counter s.views)) [
      | inl e ↦ rw (step, e) (omega arith)
      | inr (r, e) ↦ rw (step, e) (omega arith)
    ]
total-step show_fixed i (round minute) s h = omega (arith, total-agregate show_fixed i minute s)

-- Whatever counters share a cell and whenever the reports are made: if what a cell holds, what was
-- read from it and what is added to it stay below 2 ^ 64 together, nothing that is added is lost or
-- reported twice. What was read from the cell in the reports and what it still holds are as much as
-- before and what was added.
pub total-run :
    (show_fixed : ℕ → Bytes) (i : ℕ) (events : List Event) (s : State)
    → total i s + added i events < 2 ^ 64
    → total i (run show_fixed events s) ≡ total i s + added i events
unfolding run
total-run show_fixed i [] s h = omega arith
total-run show_fixed i (e ∷ events) s h =
    let here = total-step show_fixed i e s (omega arith) in
    omega (arith, here, total-run show_fixed i events (step show_fixed e s) (omega (arith, here)))
