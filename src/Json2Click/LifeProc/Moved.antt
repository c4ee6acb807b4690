-- ===== src/Json2Click/LifeProc/Moved.antt =====
-- Where the input files go.
use flexetl.Prelude.{
  ℕ, ◌≡◌, refl, ap, sym, ◌∙◌, Bool, true, false, not, ◌&&◌, ◌||◌, List, [], ◌∷◌, ◌++◌, Option, none,
  some, length, arith, inl, inr, Bool-cases, Option-cases, if◌then◌else◌, append_assoc,
}
use flexetl.Prelude.Words.{Bytes}
use flexetl.ClickTbl.Stream.{Stream}
use flexetl.Json2Click.Handler.{is_empty}
use flexetl.Json2Click.Line.{Parsed}
use flexetl.Json2Click.Line.Verdict.{is_good, process_line-is_good}
use flexetl.Json2Click.State.{State, is_zero, call_save, save_now, dump}
use flexetl.Json2Click.State.Dump.{dump_cases}
use flexetl.Json2Click.State.Threw.{is_some, save-threw}
use flexetl.Json2Click.LifeProc.{
  Moment, FileJob, FileRun, lines, read_line, read_lines, finish_file, move_file, process_file,
  delay_dump, round, rounds, life_proc,
}

-- What `dump` leaves alone: the moves, the configuration and the metrics of the lines.
abbrev Untouched : State → State → Type 0
Untouched s s' =
    (s'.moves ≡ s.moves)
    × (s'.delay ≡ s.delay)
    × (s'.block_size ≡ s.block_size)
    × (s'.error_json ≡ s.error_json)

dump-Untouched :
    (forced : Bool) (now : ℕ) (fl : Option Stream) (s : State) → Untouched s (dump forced now fl s)
unfolding save_now call_save
dump-Untouched forced now fl s =
    let same : Untouched s s = (refl, refl, refl, refl) in
    dump_cases (Untouched s) forced now fl s (λ _. same) (λ _ _. same) (λ _ _ _ _. same) (λ _. same)

and_true : (b : Bool) → (b && true) ≡ b
and_true true = refl
and_true false = refl

not-not : (b : Bool) → not (not b) ≡ b
not-not true = refl
not-not false = refl

module _ (parse : Bytes → Parsed) where
  unfoldable pub all_good : List Bytes → Bool
  all_good [] = true
  all_good (line ∷ ls) = is_good parse line && all_good ls

  -- Whether a file goes to the good ones: all its lines are good, and its own file, if each file
  -- gets one, could be opened.
  abbrev pub verdict : Bool → FileJob → Bytes → Bool
  verdict each job content =
      all_good (lines (length content) content) && (if each then is_some job.own else true)

  unfoldable pub moved_in_round : Bool → Option FileJob → List (Bytes × Bool)
  moved_in_round each none = []
  moved_in_round each (some job) =
      if is_empty job.name
      then []
      else elim job.content [ none ↦ [] | some content ↦ (job.name, verdict each job content) ∷ [] ]

  -- The last one first.
  unfoldable pub moved_in_rounds : Bool → List (Option FileJob × Moment) → List (Bytes × Bool)
  moved_in_rounds each [] = []
  moved_in_rounds each ((job, m) ∷ js) = moved_in_rounds each js ++ moved_in_round each job

  -- One line and the dump behind it.
  abbrev Line : FileRun → Bytes → FileRun → Type 0
  Line r line r' =
      (r'.state.moves ≡ r.state.moves)
      × (r'.state.delay ≡ r.state.delay)
      × (r'.state.block_size ≡ r.state.block_size)
      × (r'.good ≡ (r.good && is_good parse line))

  read_line-Line :
      (line : Bytes) (m : Moment) (r : FileRun) → Line r line (read_line parse line m r)
  unfolding read_line
  read_line-Line line m r = elim (Bool-cases (is_zero r.state.block_size)) [
    | inl e ↦ rw (e, process_line-is_good parse line r.state.table) (refl, refl, refl, refl)
    | inr e ↦
        let (moves, delay, block_size, _) = dump-Untouched false m.now m.opened _ in
        rw (e, process_line-is_good parse line r.state.table) (moves, delay, block_size, refl)
  ]

  read_lines-all_good :
      (clock : ℕ → Moment) (ls : List Bytes) (r : FileRun)
      → let r' = read_lines parse clock ls r in
        (r'.state.moves ≡ r.state.moves)
        × (r'.state.delay ≡ r.state.delay)
        × (r'.state.block_size ≡ r.state.block_size)
        × (r'.good ≡ (r.good && all_good ls))
  unfolding read_lines all_good
  read_lines-all_good clock [] r = (refl, refl, refl, ground arith)
  read_lines-all_good clock (line ∷ ls) r =
      let (moves, delay, block_size, good) = read_line-Line line (clock (length ls)) r in
      let (moves', delay', block_size', good') =
        read_lines-all_good clock ls (read_line parse line (clock (length ls)) r) in
      (moves' ∙ moves, delay' ∙ delay, block_size' ∙ block_size, ground arith)

  finish_file-moves :
      (metrics : Bool) (job : FileJob) (r : FileRun) (each : Bool)
      → (is_zero r.state.delay && is_zero r.state.block_size) ≡ each
      → let s' = move_file parse job (finish_file parse metrics job.name job.own r) in
        (s'.moves ≡ (job.name, r.good && (if each then is_some job.own else true)) ∷ r.state.moves)
        × (s'.delay ≡ r.state.delay)
        × (s'.block_size ≡ r.state.block_size)
  unfolding finish_file move_file call_save
  finish_file-moves true job r true h =
      rw (h, save-threw job.own r.state.table)
        (ap (λ b. (job.name, r.good && b) ∷ r.state.moves) (not-not (is_some job.own)), refl, refl)
  finish_file-moves true job r false h = rw (h, and_true r.good) (refl, refl, refl)
  finish_file-moves false job r true h =
      rw (h, save-threw job.own r.state.table)
        (ap (λ b. (job.name, r.good && b) ∷ r.state.moves) (not-not (is_some job.own)), refl, refl)
  finish_file-moves false job r false h = rw (h, and_true r.good) (refl, refl, refl)

  -- What a step of the loop over the files adds to the moves, under one configuration.
  abbrev Moves : Bool → State → List (Bytes × Bool) → State → Type 0
  Moves each s new s' =
      (s'.moves ≡ new ++ s.moves) × ((is_zero s'.delay && is_zero s'.block_size) ≡ each)

  process_file-Moves :
      (metrics each : Bool) (job : FileJob) (content : Bytes) (s : State)
      → (is_zero s.delay && is_zero s.block_size) ≡ each
      → Moves each s
          ((job.name, verdict each job content) ∷ [])
          (process_file parse metrics job content s)
  unfolding process_file
  process_file-Moves metrics each job content s h =
      let start : FileRun = record { state = s; good = true; counter = 0; readed = 0 } in
      let ls = lines (length content) content in
      let r = read_lines parse job.clock ls start in
      let (moves, delay, block_size, good) = read_lines-all_good job.clock ls start in
      let (moves', delay', block_size') =
        finish_file-moves metrics job r each (rw (delay, block_size) h) in
      (moves' ∙ rw (good, moves) refl, rw (delay', block_size', delay, block_size) h)

  delay_dump-Moves :
      (each : Bool) (m : Moment) (s : State)
      → (is_zero s.delay && is_zero s.block_size) ≡ each
      → Moves each s [] (delay_dump parse m s)
  delay_dump-Moves each m s h = elim (Bool-cases (is_zero s.delay)) [
    | inl e ↦ rw e (refl, h)
    | inr e ↦
        let (moves, delay, block_size, _) = dump-Untouched false m.now m.opened s in
        rw e (moves, rw (delay, block_size) h)
  ]

  round-Moves :
      (metrics each : Bool) (job : Option FileJob) (m : Moment) (s : State)
      → (is_zero s.delay && is_zero s.block_size) ≡ each
      → Moves each s (moved_in_round each job) (round parse metrics job m s)
  unfolding round moved_in_round
  round-Moves metrics each none m s h = delay_dump-Moves each m s h
  round-Moves metrics each (some job) m s h = elim (Bool-cases (is_empty job.name)) [
    | inl e ↦ rw e (delay_dump-Moves each m s h)
    | inr e ↦ rw e (elim (Option-cases job.content) [
      | inl e' ↦ rw e' (refl, h)
      | inr (content, e') ↦
          let (moves, same) = process_file-Moves metrics each job content s h in
          let (moves', same') =
            delay_dump-Moves each m (process_file parse metrics job content s) same in
          rw e' (moves' ∙ moves, same')
    ])
  ]

  rounds-Moves :
      (metrics each : Bool) (js : List (Option FileJob × Moment)) (s : State)
      → (is_zero s.delay && is_zero s.block_size) ≡ each
      → Moves each s (moved_in_rounds each js) (rounds parse metrics js s)
  unfolding rounds moved_in_rounds
  rounds-Moves metrics each [] s h = (refl, h)
  rounds-Moves metrics each ((job, m) ∷ js) s h =
      let (moves, same) = round-Moves metrics each job m s h in
      let (moves', same') = rounds-Moves metrics each js (round parse metrics job m s) same in
      (
        moves'
            ∙ ap (λ l. moved_in_rounds each js ++ l) moves
            ∙ sym (append_assoc (moved_in_rounds each js) (moved_in_round each job) s.moves),
        same',
      )

  -- Each input file with a name that can be opened is moved once, in the order of the queue, and no
  -- other file is: to the good files if all its lines are good and, when there is neither a delay
  -- nor a block size, its own `.cdb` file can be opened; otherwise to the failed ones. That is so
  -- whatever the other saves do.
  pub life_proc-moved_in_rounds :
      (metrics : Bool) (js : List (Option FileJob × Moment)) (last : Moment) (s : State)
      → (life_proc parse metrics js last s).moves
        ≡ moved_in_rounds (is_zero s.delay && is_zero s.block_size) js ++ s.moves
  unfolding life_proc
  life_proc-moved_in_rounds metrics js last s =
      let s' = rounds parse metrics js s in
      let (moves, _) = rounds-Moves metrics _ js s refl in
      elim (Bool-cases (not (is_zero s'.delay) || not (is_zero s'.block_size))) [
        | inl e ↦ rw e ((dump-Untouched true last.now last.opened s').0 ∙ moves)
        | inr e ↦ rw e moves
      ]
