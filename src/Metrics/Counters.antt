-- ===== src/Metrics/Counters.antt =====
-- src/stem/metrics/metrics.h: `counter_u`, `counter_d` and `collector_u`. What `_val` points to is a
-- cell of a memory; counters that were connected under one name share it.
pub mod Average
use flexetl.Prelude.{
  ℕ, ◌+◌, ◌*◌, ◌/◌, ◌%◌, ◌^◌, Bool, true, false, List, [], ◌∷◌, ltb, ◌==◌, if◌then◌else◌,
}
use flexetl.Prelude.Words.{Bytes}
use flexetl.ClickTbl.Getters.Decimal.{show_unsigned}

abbrev pub Memory : Type 0
Memory = ℕ → ℕ

abbrev pub set : ℕ → ℕ → Memory → Memory
set i v memory j = if j == i then v else memory j

pub data Kind : Type 0 where
  counter_u counter_d collector_u : Kind

-- `fetch_add` on 64 bits.
unfoldable pub fetch_add : ℕ → ℕ → Memory → Memory
fetch_add i n memory = set i ((memory i + n) % 2 ^ 64) memory

-- `collector_u::ValueT`: the low 44 bits are the sum, the others the number of values.
abbrev pub value_bits : ℕ → ℕ
value_bits r = r % 2 ^ 44

abbrev pub count_bits : ℕ → ℕ
count_bits r = r / 2 ^ 44

-- What is added to the cell for a value of 32 bits.
abbrev pub collected : ℕ → ℕ
collected n = n + 2 ^ 44

-- `collector_u::flush` of the cell's value.
unfoldable pub average : ℕ → ℕ
average r =
    let res = if count_bits r == 0 then 0 else value_bits r / count_bits r in
    if ltb 1000000 res then 0 else res

-- What `CounterViewImpl::flush` makes of the cell's value; `show_fixed` is the text of a `counter_d`,
-- which keeps ten thousandths.
unfoldable pub show : (ℕ → Bytes) → Kind → ℕ → Bytes
show show_fixed counter_u r = show_unsigned r
show show_fixed counter_d r = show_fixed r
show show_fixed collector_u r = show_unsigned (average r)

-- The values that a collector is given between two calls of `flush`.
unfoldable pub collect : List ℕ → ℕ → Memory → Memory
collect [] i memory = memory
collect (n ∷ ns) i memory = collect ns i (fetch_add i (collected n) memory)
