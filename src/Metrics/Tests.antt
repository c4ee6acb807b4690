-- ===== src/Metrics/Tests.antt =====
-- src/stem/metrics on small inputs.
use flexetl.Prelude.{◌+◌, ◌≡◌, refl, true, false, List, [], ◌∷◌, some, arith}
use flexetl.StdMap.{Map, find, update}
use flexetl.Metrics.Counters.{Memory, counter_u, collector_u, average, collect}
use flexetl.Metrics.Counters.Average.{mean, average-collect}
use flexetl.Metrics.Name.{join_root, get_name}
use flexetl.Metrics.Registry.{
  View, connect, State, Event, add_unit, add_sample, connects, round, run,
}
use flexetl.Metrics.Registry.Conservation.{total, added, total-run}
use flexetl.Metrics.Send
use flexetl.Metrics.Send.{Answers, rounds, known, arrived, known-rounds}

abbrev zeros : Memory
zeros i = 0

average-collect_example : average (collect (3 ∷ 8 ∷ []) 1 zeros 1) ≡ mean (3 ∷ 8 ∷ [])
average-collect_example = average-collect (3 ∷ 8 ∷ []) 1 zeros refl (omega arith) (omega arith)

-- "a.b" of "a" and "b" below "c.", and "a..b" of "a." and ".b".
name_below :
    get_name (b'c' ∷ b'.' ∷ []) (b'a' ∷ []) (b'b' ∷ []) ≡ b'c' ∷ b'.' ∷ b'a' ∷ b'.' ∷ b'b' ∷ []
unfolding get_name join_root
name_below = refl

both_dots : join_root (b'a' ∷ b'.' ∷ []) (b'.' ∷ b'b' ∷ []) ≡ b'a' ∷ b'.' ∷ b'.' ∷ b'b' ∷ []
unfolding join_root
both_dots = refl

abbrev units : View
units = record { kind = counter_u; cell = 1 }

abbrev samples : View
samples = record { kind = collector_u; cell = 2 }

abbrev views : Map View
views = (97 ∷ [], units) ∷ []

first_counter : connect (97 ∷ []) units [] ≡ some (views, 1)
unfolding connect find update
first_counter = refl

-- A second counter of the first one's type, with a cell of its own before.
abbrev start : State
start = record { views = views; memory = zeros; last_minute = 0; readings = []; queue = [] }

abbrev events : List Event
events =
    add_unit 1 5
    ∷ connects (98 ∷ []) samples
    ∷ add_sample 2 7
    ∷ round 1
    ∷ add_unit 1 2
    ∷ round 1
    ∷ round 2
    ∷ []

total-run_example : total 1 (run (λ r. []) events start) ≡ total 1 start + added 1 events
total-run_example = total-run (λ r. []) 1 events start (omega arith)

abbrev lost : Answers
lost = record { arrivals = (97 ∷ []) ∷ []; connects = true; pick = some 0; writes = false }

abbrev again : Answers
again = record lost { arrivals = []; writes = true }

abbrev disconnected : Send.State
disconnected = record { closed = true; connect_counter = 120; send_queue = []; written = [] }

known-rounds_example :
    known (97 ∷ []) (rounds (lost ∷ again ∷ []) disconnected)
    ≡ known (97 ∷ []) disconnected + arrived (97 ∷ []) (lost ∷ again ∷ [])
known-rounds_example = known-rounds (97 ∷ []) (lost ∷ again ∷ []) disconnected
