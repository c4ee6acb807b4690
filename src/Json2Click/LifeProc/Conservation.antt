-- ===== src/Json2Click/LifeProc/Conservation.antt =====
-- No row is lost or saved twice between the lines and the calls of `save`.
use flexetl.Prelude.{
  ℕ, ◌+◌, ◌≡◌, refl, ◌∙◌, Bool, true, false, not, ◌&&◌, ◌||◌, List, [], ◌∷◌, Option, none, some,
  length, arith, inl, inr, Bool-cases, Option-cases, if◌then◌else◌,
}
use flexetl.Prelude.Words.{Bytes}
use flexetl.ClickTbl.Table.{flush_tbl}
use flexetl.ClickTbl.Stream.{Stream}
use flexetl.Json2Click.Handler.{is_empty}
use flexetl.Json2Click.Line.{Parsed}
use flexetl.Json2Click.Line.Verdict.{is_good, process_line-row_count}
use flexetl.Json2Click.State.{State, SaveCall, is_zero, call_save, save_now, dump}
use flexetl.Json2Click.State.Dump.{dump_cases}
use flexetl.Json2Click.LifeProc.{
  Moment, FileJob, FileRun, lines, read_line, read_lines, finish_file, move_file, process_file,
  delay_dump, round, rounds, life_proc,
}

-- The rows that the calls of `save` were given.
unfoldable pub saved_rows : List SaveCall → ℕ
saved_rows [] = 0
saved_rows (c ∷ cs) = c.table.row_count + saved_rows cs

-- The rows that were handed over or still wait.
abbrev pub total : State → ℕ
total s = saved_rows s.calls + s.table.row_count

save_now-total : (now : ℕ) (fl : Option Stream) (s : State) → total (save_now now fl s) ≡ total s
unfolding save_now call_save saved_rows flush_tbl
save_now-total now fl s = omega arith

pub dump-total :
    (forced : Bool) (now : ℕ) (fl : Option Stream) (s : State)
    → total (dump forced now fl s) ≡ total s
dump-total forced now fl s =
    dump_cases (λ s'. total s' ≡ total s) forced now fl s (λ _. refl) (λ _ _. refl)
      (λ _ _ _ _. refl) (λ _. save_now-total now fl s)

module _ (parse : Bytes → Parsed) where
  -- The good lines among some lines, in a file, and in the files of all rounds.
  unfoldable pub good_lines : List Bytes → ℕ
  good_lines [] = 0
  good_lines (line ∷ ls) = (if is_good parse line then 1 else 0) + good_lines ls

  unfoldable pub good_in_round : Option FileJob → ℕ
  good_in_round none = 0
  good_in_round (some job) = if is_empty job.name then 0 else elim job.content [
    | none ↦ 0
    | some content ↦ good_lines (lines (length content) content)
  ]

  unfoldable pub good_in_rounds : List (Option FileJob × Moment) → ℕ
  good_in_rounds [] = 0
  good_in_rounds ((job, m) ∷ js) = good_in_round job + good_in_rounds js

  read_line-total :
      (line : Bytes) (m : Moment) (r : FileRun)
      → total (read_line parse line m r).state
        ≡ total r.state + (if is_good parse line then 1 else 0)
  unfolding read_line
  read_line-total line m r =
      let count = process_line-row_count parse line r.state.table in
      elim (Bool-cases (is_zero r.state.block_size)) [
        | inl e ↦ rw e (ground arith)
        | inr e ↦ rw e (dump-total false m.now m.opened _ ∙ ground arith)
      ]

  read_lines-total :
      (clock : ℕ → Moment) (ls : List Bytes) (r : FileRun)
      → total (read_lines parse clock ls r).state ≡ total r.state + good_lines ls
  unfolding read_lines good_lines
  read_lines-total clock [] r = omega arith
  read_lines-total clock (line ∷ ls) r = omega (
    arith,
    read_lines-total clock ls (read_line parse line (clock (length ls)) r),
    read_line-total line (clock (length ls)) r,
  )

  finish_file-total :
      (metrics : Bool) (name : Bytes) (fl : Option Stream) (r : FileRun)
      → total (finish_file parse metrics name fl r).0 ≡ total r.state
  unfolding finish_file call_save saved_rows flush_tbl
  finish_file-total true name fl r =
      elim (Bool-cases (is_zero r.state.delay && is_zero r.state.block_size)) [
        | inl e ↦ rw e (omega arith)
        | inr e ↦ rw e refl
      ]
  finish_file-total false name fl r =
      elim (Bool-cases (is_zero r.state.delay && is_zero r.state.block_size)) [
        | inl e ↦ rw e (omega arith)
        | inr e ↦ rw e refl
      ]

  process_file-total :
      (metrics : Bool) (job : FileJob) (content : Bytes) (s : State)
      → total (process_file parse metrics job content s)
        ≡ total s + good_lines (lines (length content) content)
  unfolding process_file move_file
  process_file-total metrics job content s =
      finish_file-total metrics job.name job.own _
      ∙ read_lines-total job.clock (lines (length content) content) _

  delay_dump-total : (m : Moment) (s : State) → total (delay_dump parse m s) ≡ total s
  delay_dump-total m s = elim (Bool-cases (is_zero s.delay)) [
    | inl e ↦ rw e refl
    | inr e ↦ rw e (dump-total false m.now m.opened s)
  ]

  round-total :
      (metrics : Bool) (job : Option FileJob) (m : Moment) (s : State)
      → total (round parse metrics job m s) ≡ total s + good_in_round job
  unfolding round good_in_round
  round-total metrics none m s = omega (arith, delay_dump-total m s)
  round-total metrics (some job) m s = elim (Bool-cases (is_empty job.name)) [
    | inl e ↦ rw e (omega (arith, delay_dump-total m s))
    | inr named ↦ rw named (elim (Option-cases job.content) [
      | inl e ↦ rw e (omega arith)
      | inr (content, e) ↦ rw e (
          delay_dump-total m (process_file parse metrics job content s)
          ∙ process_file-total metrics job content s)
    ])
  ]

  rounds-total :
      (metrics : Bool) (js : List (Option FileJob × Moment)) (s : State)
      → total (rounds parse metrics js s) ≡ total s + good_in_rounds js
  unfolding rounds good_in_rounds
  rounds-total metrics [] s = omega arith
  rounds-total metrics ((job, m) ∷ js) s =
      omega
        (arith, rounds-total metrics js (round parse metrics job m s), round-total metrics job m s)

  -- Whatever the clock and the file system do, and whether or not the saves succeed: the rows given
  -- to `save` over a whole `lifeProc`, and the rows in memory after it, are as many as those before
  -- it and one for each good line of the files that were opened.
  pub life_proc-total :
      (metrics : Bool) (js : List (Option FileJob × Moment)) (last : Moment) (s : State)
      → total (life_proc parse metrics js last s) ≡ total s + good_in_rounds js
  unfolding life_proc
  life_proc-total metrics js last s =
      let s' = rounds parse metrics js s in
      elim (Bool-cases (not (is_zero s'.delay) || not (is_zero s'.block_size))) [
        | inl e ↦ rw e (dump-total true last.now last.opened s' ∙ rounds-total metrics js s)
        | inr e ↦ rw e (rounds-total metrics js s)
      ]
