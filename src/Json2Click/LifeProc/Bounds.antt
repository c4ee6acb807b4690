-- ===== src/Json2Click/LifeProc/Bounds.antt =====
-- How many rows wait in memory and how many a saved file has, when a block size is set.
use flexetl.Prelude.{
  ℕ, ◌≤◌, ◌<◌, ◌≡◌, refl, ap, sym, ◌∙◌, Bool, true, false, not, ◌&&◌, List, Option, arith,
  if◌then◌else◌, ◌==◌, leb, All,
}
use flexetl.Prelude.Int.{pos}
use flexetl.Prelude.Words.{Bytes}
use flexetl.ClickTbl.Table.{flush_tbl}
use flexetl.ClickTbl.Stream.{Stream}
use flexetl.Json2Click.Line.{Parsed}
use flexetl.Json2Click.Line.Verdict.{process_line-row_count}
use flexetl.Json2Click.State.{State, SaveCall, is_zero, reaches_block, call_save, save_now, dump}
use flexetl.Json2Click.State.Dump.{block_over, dump_cases}
use flexetl.Json2Click.LifeProc.{
  Moment, FileJob, FileRun, read_line, finish_file, move_file, life_proc,
}
use flexetl.Json2Click.LifeProc.Walk.{NeverBack, life_proc_walk}

-- Before a `dump`: up to `n` rows wait, and only one before the first `dump`.
abbrev IsLoaded : ℕ → ℕ → State → Type 0
IsLoaded b n s =
    (s.block_size ≡ pos b)
    × (s.table.row_count ≤ n)
    × (s.save_time ≡ 0 → s.table.row_count ≤ 1)
    × All (λ (c : SaveCall). c.table.row_count ≤ n) s.calls

-- After a `dump`: less than `n` rows wait, none before the first; no file has more than `n` rows.
abbrev pub IsBounded : ℕ → ℕ → State → Type 0
IsBounded b n s =
    (s.block_size ≡ pos b)
    × (s.table.row_count < n)
    × (s.save_time ≡ 0 → s.table.row_count ≡ 0)
    × All (λ (c : SaveCall). c.table.row_count ≤ n) s.calls

IsBounded-IsLoaded : (b n : ℕ) (s : State) → IsBounded b n s → IsLoaded b n s
IsBounded-IsLoaded b n s (size, rows, first, calls) =
    (size, omega arith, λ e. omega (arith, first e), calls)

under_block :
    (b : ℕ) (s : State)
    → 0 < b
    → s.block_size ≡ pos b
    → block_over s ≡ false
    → s.table.row_count < b
under_block b s h e over =
    let bound : (if not (b == 0) then leb b s.table.row_count else false) ≡ false =
      ap (λ z. if not (is_zero z) then reaches_block z s.table.row_count else false) (sym e)
      ∙ over in
    ground arith

module _ (b n : ℕ) (b_positive : 0 < b) (b_le : b ≤ n) (two_le : 2 ≤ n) where
  dump-IsBounded :
      (forced : Bool) (now : ℕ) (fl : Option Stream) (s : State)
      → 0 < now
      → IsLoaded b n s
      → IsBounded b n (dump forced now fl s)
  unfolding save_now call_save flush_tbl
  dump-IsBounded forced now fl s h (size, rows, first, calls) =
      dump_cases (IsBounded b n) forced now fl s (λ e. (size, omega arith, λ _. e, calls))
        (λ _ z. (size, omega (arith, first z), λ e. absurd (omega arith), calls))
        (λ _ z over _.
          (size, omega (arith, under_block b s b_positive size over), λ e. absurd (z e), calls))
        (λ _. (size, omega arith, λ _. refl, (rows, calls)))

  read_line-IsBounded :
      (parse : Bytes → Parsed) (line : Bytes) (m : Moment) (r : FileRun) (lo : ℕ)
      → lo ≤ m.now
      → (0 < lo) × IsBounded b n r.state
      → (0 < m.now) × IsBounded b n (read_line parse line m r).state
  unfolding read_line
  read_line-IsBounded parse line m r lo h (early, (size, rows, first, calls)) =
      let zero_size : is_zero r.state.block_size ≡ false = rw size (ground arith) in
      let count = process_line-row_count parse line r.state.table in
      rw zero_size (
        omega arith,
        dump-IsBounded false m.now m.opened _ (omega arith)
            (size, ground arith, λ e. ground (arith, first e), calls),
      )

  finish_file-IsBounded :
      (parse : Bytes → Parsed) (metrics : Bool) (job : FileJob) (r : FileRun) (lo : ℕ)
      → (0 < lo) × IsBounded b n r.state
      → (0 < lo)
        × IsBounded b n (move_file parse job (finish_file parse metrics job.name job.own r))
  unfolding finish_file move_file
  finish_file-IsBounded parse metrics job r lo (early, (size, rows, first, calls)) =
      let set : (is_zero r.state.delay && is_zero r.state.block_size) ≡ false =
        rw size (ground arith) in
      elim metrics
        as (λ k.
          (0 < lo) × IsBounded b n (move_file parse job (finish_file parse k job.name job.own r))) [
            | true ↦ rw set (early, (size, rows, first, calls))
            | false ↦ rw set (early, (size, rows, first, calls))
          ]

-- With a block size `b` of at least one, a bound `n` that is at least `b` and at least two, and a
-- clock past 1970 that never goes back: a `lifeProc` that starts with less than `n` rows in memory,
-- none before the first look at the clock, and with calls of `save` of at most `n` rows, ends so:
-- each file that it saved has at most `n` rows.
pub life_proc-IsBounded :
    (parse : Bytes → Parsed) (metrics : Bool) (js : List (Option FileJob × Moment)) (last : Moment)
    (s : State) (b n lo : ℕ)
    → 0 < b
    → b ≤ n
    → 2 ≤ n
    → 0 < lo
    → NeverBack lo js last
    → IsBounded b n s
    → IsBounded b n (life_proc parse metrics js last s)
life_proc-IsBounded parse metrics js last s b n lo b_positive b_le two_le early c h =
    (life_proc_walk parse metrics (λ t u. (0 < t) × IsBounded b n u)
      (λ t u v le p. (omega (arith, p.0), p.1))
      (read_line-IsBounded b n b_positive b_le two_le parse)
      (finish_file-IsBounded b n b_positive b_le two_le parse metrics)
      (λ forced m u t le p. (
        omega (arith, p.0),
        dump-IsBounded b n b_positive b_le two_le forced m.now m.opened u (omega (arith, p.0))
            (IsBounded-IsLoaded b n u p.1),
      ))
      js last s lo c (early, h)).1
