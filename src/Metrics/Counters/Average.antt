-- ===== src/Metrics/Counters/Average.antt =====
-- What a collector of src/stem/metrics/metrics.h reports.
use flexetl.Prelude.{
  ℕ, ◌+◌, ◌*◌, ◌/◌, ◌%◌, ◌^◌, ◌<◌, ◌≡◌, ap, List, [], ◌∷◌, arith, length, ltb, leb, ◌==◌,
  if◌then◌else◌,
}
use flexetl.Metrics.Counters.{
  Memory, fetch_add, value_bits, count_bits, collected, average, collect,
}

abbrev pub sum : List ℕ → ℕ
sum [] = 0
sum (n ∷ ns) = n + sum ns

fetch_add_same : (i n : ℕ) (memory : Memory) → fetch_add i n memory i ≡ (memory i + n) % 2 ^ 64
unfolding fetch_add
fetch_add_same i n memory = ground arith

-- The sum and the number of the values, next to each other in one word.
collect_lem :
    (ns : List ℕ) (i : ℕ) (memory : Memory)
    → collect ns i memory i % 2 ^ 64 ≡ (memory i + sum ns + length ns * 2 ^ 44) % 2 ^ 64
unfolding collect
collect_lem [] i memory = ap (λ (n : ℕ). n % 2 ^ 64) (omega arith)
collect_lem (n ∷ ns) i memory =
    let first = fetch_add_same i (collected n) memory in
    omega (arith, collect_lem ns i (fetch_add i (collected n) memory), first)

fetch_add_word : (i n : ℕ) (memory : Memory) → fetch_add i n memory i < 2 ^ 64
fetch_add_word i n memory = rw (fetch_add_same i n memory) (omega arith)

collect_word :
    (ns : List ℕ) (i : ℕ) (memory : Memory) → memory i < 2 ^ 64 → collect ns i memory i < 2 ^ 64
unfolding collect
collect_word [] i memory h = h
collect_word (n ∷ ns) i memory h =
    collect_word ns i (fetch_add i (collected n) memory) (fetch_add_word i (collected n) memory)

-- What a collector ought to report: the mean, and nothing in place of a mean above a million.
unfoldable pub mean : List ℕ → ℕ
mean ns = let m = if length ns == 0 then 0 else sum ns / length ns in if leb m 1000000 then m else 0

cap : (m : ℕ) → (if ltb 1000000 m then 0 else m) ≡ (if leb m 1000000 then m else 0)
cap m = ground arith

-- Fewer than 2 ^ 20 values with a sum below 2 ^ 44, collected since the cell was 0, are reported as
-- their mean, or as 0 if it is above a million: the sum and the number do not run into each other.
pub average-collect :
    (ns : List ℕ) (i : ℕ) (memory : Memory)
    → memory i ≡ 0
    → length ns < 2 ^ 20
    → sum ns < 2 ^ 44
    → average (collect ns i memory i) ≡ mean ns
unfolding average mean
average-collect ns i memory start short small =
    let r = collect ns i memory i in
    let low : r < 2 ^ 64 = collect_word ns i memory (omega (arith, start)) in
    let whole : r ≡ sum ns + length ns * 2 ^ 44 = omega (arith, start, collect_lem ns i memory) in
    let value : value_bits r ≡ sum ns = omega (arith, whole) in
    let count : count_bits r ≡ length ns = omega (arith, whole) in
    rw (value, count) (cap (if length ns == 0 then 0 else sum ns / length ns))
