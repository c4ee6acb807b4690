-- ===== src/Json2Click/LifeProc/Leftover.antt =====
-- What is in memory between the files, and at the end of `lifeProc`.
use flexetl.Prelude.{
  ℕ, ◌+◌, ◌≡◌, refl, Bool, true, false, not, ◌&&◌, ◌||◌, List, [], ◌∷◌, Option, none, some, length,
  arith, inl, inr, Bool-cases, Option-cases,
}
use flexetl.Prelude.Words.{Bytes}
use flexetl.ClickTbl.Table.{flush_tbl}
use flexetl.ClickTbl.Stream.{Stream}
use flexetl.Json2Click.Handler.{is_empty}
use flexetl.Json2Click.Line.{Parsed}
use flexetl.Json2Click.State.{State, is_zero, call_save, save_now, dump}
use flexetl.Json2Click.State.Dump.{dump_cases}
use flexetl.Json2Click.LifeProc.{
  Moment, FileJob, FileRun, lines, read_lines, finish_file, move_file, process_file, delay_dump,
  round, rounds, life_proc,
}
use flexetl.Json2Click.LifeProc.Conservation.{saved_rows, good_in_rounds, life_proc-total}

-- With neither a delay nor a block size, nothing waits in memory.
abbrev pub IsIdle : State → Type 0
IsIdle s = is_zero s.delay && is_zero s.block_size ≡ true → s.table.row_count ≡ 0

finish_file-IsIdle :
    (parse : Bytes → Parsed) (metrics : Bool) (name : Bytes) (fl : Option Stream) (r : FileRun)
    → IsIdle (finish_file parse metrics name fl r).0
unfolding finish_file call_save flush_tbl
finish_file-IsIdle parse true name fl r =
    elim (Bool-cases (is_zero r.state.delay && is_zero r.state.block_size)) [
      | inl e ↦ rw e (λ _. refl)
      | inr e ↦ rw e (λ h. ground arith)
    ]
finish_file-IsIdle parse false name fl r =
    elim (Bool-cases (is_zero r.state.delay && is_zero r.state.block_size)) [
      | inl e ↦ rw e (λ _. refl)
      | inr e ↦ rw e (λ h. ground arith)
    ]

-- `dump` leaves the configuration alone, and a forced one leaves no row.
dump-delay :
    (forced : Bool) (now : ℕ) (fl : Option Stream) (s : State)
    → (dump forced now fl s).delay ≡ s.delay
unfolding save_now call_save
dump-delay forced now fl s =
    dump_cases (λ s'. s'.delay ≡ s.delay) forced now fl s (λ _. refl) (λ _ _. refl)
      (λ _ _ _ _. refl) (λ _. refl)

pub dump-forced :
    (now : ℕ) (fl : Option Stream) (s : State) → (dump true now fl s).table.row_count ≡ 0
unfolding save_now call_save flush_tbl
dump-forced now fl s =
    dump_cases (λ s'. s'.table.row_count ≡ 0) true now fl s (λ e. e) (λ e _. cc) (λ e _ _ _. cc)
      (λ _. refl)

delay_dump-IsIdle :
    (parse : Bytes → Parsed) (m : Moment) (s : State) → IsIdle s → IsIdle (delay_dump parse m s)
delay_dump-IsIdle parse m s h = elim (Bool-cases (is_zero s.delay)) [
  | inl e ↦ rw e h
  | inr e ↦ rw e (λ z. ground (arith, dump-delay false m.now m.opened s))
]

process_file-IsIdle :
    (parse : Bytes → Parsed) (metrics : Bool) (job : FileJob) (content : Bytes) (s : State)
    → IsIdle (process_file parse metrics job content s)
unfolding process_file move_file
process_file-IsIdle parse metrics job content s =
    finish_file-IsIdle parse metrics job.name job.own (
      read_lines parse job.clock (lines (length content) content)
        (record { state = s; good = true; counter = 0; readed = 0 }))

round-IsIdle :
    (parse : Bytes → Parsed) (metrics : Bool) (job : Option FileJob) (m : Moment) (s : State)
    → IsIdle s
    → IsIdle (round parse metrics job m s)
unfolding round
round-IsIdle parse metrics none m s h = delay_dump-IsIdle parse m s h
round-IsIdle parse metrics (some job) m s h = elim (Bool-cases (is_empty job.name)) [
  | inl e ↦ rw e (delay_dump-IsIdle parse m s h)
  | inr named ↦ rw named (elim (Option-cases job.content) [
    | inl e ↦ rw e h
    | inr (content, e) ↦ rw e (
        delay_dump-IsIdle parse m (process_file parse metrics job content s)
          (process_file-IsIdle parse metrics job content s))
  ])
]

rounds-IsIdle :
    (parse : Bytes → Parsed) (metrics : Bool) (js : List (Option FileJob × Moment)) (s : State)
    → IsIdle s
    → IsIdle (rounds parse metrics js s)
unfolding rounds
rounds-IsIdle parse metrics [] s h = h
rounds-IsIdle parse metrics ((job, m) ∷ js) s h =
    rounds-IsIdle parse metrics js _ (round-IsIdle parse metrics job m s h)

life_proc-empty :
    (parse : Bytes → Parsed) (metrics : Bool) (js : List (Option FileJob × Moment)) (last : Moment)
    (s : State)
    → s.table.row_count ≡ 0
    → (life_proc parse metrics js last s).table.row_count ≡ 0
unfolding life_proc
life_proc-empty parse metrics js last s h =
    let s' = rounds parse metrics js s in
    elim (Bool-cases (not (is_zero s'.delay) || not (is_zero s'.block_size))) [
      | inl e ↦ rw e (dump-forced last.now last.opened s')
      | inr e ↦ rw e (rounds-IsIdle parse metrics js s (λ _. h) (ground arith))
    ]

-- A `lifeProc` that starts with no rows in memory ends with none: the rows given to its calls of
-- `save` are as many as the good lines of the files that it opened.
pub life_proc-saved_rows :
    (parse : Bytes → Parsed) (metrics : Bool) (js : List (Option FileJob × Moment)) (last : Moment)
    (s : State)
    → s.table.row_count ≡ 0
    → let s' = life_proc parse metrics js last s in
      (s'.table.row_count ≡ 0)
      × (saved_rows s'.calls ≡ saved_rows s.calls + good_in_rounds parse js)
life_proc-saved_rows parse metrics js last s h =
    let e = life_proc-empty parse metrics js last s h in
    (e, omega (arith, life_proc-total parse metrics js last s))
