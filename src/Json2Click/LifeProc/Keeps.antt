-- ===== src/Json2Click/LifeProc/Keeps.antt =====
-- What every step of `lifeProc` keeps, `lifeProc` keeps; and that each table it saves is aligned,
-- and not empty unless it saves a file for each input.
use flexetl.Prelude.{
  ℕ, ◌≡◌, ◌≢◌, Bool, true, false, not, ◌&&◌, ◌||◌, List, [], ◌∷◌, Option, none, some, length, arith,
  inl, inr, Bool-cases, Option-cases, All, ◌<◌,
}
use flexetl.Prelude.Words.{Bytes}
use flexetl.ClickTbl.Table.Aligned.{IsAligned, flush_tbl-IsAligned}
use flexetl.ClickTbl.Stream.{Stream}
use flexetl.Json2Click.Handler.{is_empty}
use flexetl.Json2Click.Line.{Parsed}
use flexetl.Json2Click.Line.Atomic.{process_line-AddsRow}
use flexetl.Json2Click.State.{State, SaveCall, is_zero, call_save, save_now, dump}
use flexetl.Json2Click.State.Dump.{dump_cases}
use flexetl.Json2Click.LifeProc.{
  Moment, FileJob, FileRun, lines, read_line, read_lines, finish_file, move_file, process_file,
  delay_dump, round, rounds, life_proc,
}

module _ {ℓ} (parse : Bytes → Parsed) (metrics : Bool) (P : State → Type ℓ)
    (line_step : (line : Bytes) (m : Moment) (r : FileRun)
      → P r.state
      → P (read_line parse line m r).state)
    (finish_step : (job : FileJob) (r : FileRun)
      → P r.state
      → P (move_file parse job (finish_file parse metrics job.name job.own r)))
    (dump_step : (forced : Bool) (now : ℕ) (fl : Option Stream) (s : State)
      → P s
      → P (dump forced now fl s)) where
  lines_keep :
      (clock : ℕ → Moment) (ls : List Bytes) (r : FileRun)
      → P r.state
      → P (read_lines parse clock ls r).state
  unfolding read_lines
  lines_keep clock [] r p = p
  lines_keep clock (line ∷ ls) r p = lines_keep clock ls _ (line_step line (clock (length ls)) r p)

  delay_keep : (m : Moment) (s : State) → P s → P (delay_dump parse m s)
  delay_keep m s p = elim (Bool-cases (is_zero s.delay)) [
    | inl e ↦ rw e p
    | inr e ↦ rw e (dump_step false m.now m.opened s p)
  ]

  round_keep :
      (job : Option FileJob) (m : Moment) (s : State) → P s → P (round parse metrics job m s)
  unfolding round process_file
  round_keep none m s p = delay_keep m s p
  round_keep (some job) m s p = elim (Bool-cases (is_empty job.name)) [
    | inl e ↦ rw e (delay_keep m s p)
    | inr named ↦ rw named (elim (Option-cases job.content) [
      | inl e ↦ rw e p
      | inr (content, e) ↦ rw e (
          delay_keep m (process_file parse metrics job content s)
            (finish_step job _ (lines_keep job.clock (lines (length content) content) _ p)))
    ])
  ]

  rounds_keep :
      (js : List (Option FileJob × Moment)) (s : State) → P s → P (rounds parse metrics js s)
  unfolding rounds
  rounds_keep [] s p = p
  rounds_keep ((job, m) ∷ js) s p = rounds_keep js _ (round_keep job m s p)

  pub life_proc_keep :
      (js : List (Option FileJob × Moment)) (last : Moment) (s : State)
      → P s
      → P (life_proc parse metrics js last s)
  unfolding life_proc
  life_proc_keep js last s p =
      let s' = rounds parse metrics js s in
      let p' = rounds_keep js s p in
      elim (Bool-cases (not (is_zero s'.delay) || not (is_zero s'.block_size))) [
        | inl e ↦ rw e (dump_step true last.now last.opened s' p')
        | inr e ↦ rw e p'
      ]

-- A call of `save` with a table that is aligned and has rows.
abbrev pub IsFilled : SaveCall → Type 0
IsFilled c = IsAligned c.table × (0 < c.table.row_count)

-- Rows are saved by `dump`, since a delay or a block size is set; what is in memory and what was
-- saved is aligned.
abbrev pub SavesRows : State → Type 0
SavesRows s =
    (is_zero s.delay && is_zero s.block_size ≡ false) × IsAligned s.table × All IsFilled s.calls

save_now-SavesRows :
    (now : ℕ) (fl : Option Stream) (s : State)
    → s.table.row_count ≢ 0
    → SavesRows s
    → SavesRows (save_now now fl s)
unfolding save_now call_save
save_now-SavesRows now fl s rows (set, aligned, calls) =
    (set, flush_tbl-IsAligned s.table, ((aligned, omega (arith, rows)), calls))

dump-SavesRows :
    (forced : Bool) (now : ℕ) (fl : Option Stream) (s : State)
    → SavesRows s
    → SavesRows (dump forced now fl s)
dump-SavesRows forced now fl s h =
    dump_cases SavesRows forced now fl s (λ _. h) (λ _ _. h) (λ _ _ _ _. h)
      (λ rows. save_now-SavesRows now fl s rows h)

read_line-SavesRows :
    (parse : Bytes → Parsed) (line : Bytes) (m : Moment) (r : FileRun)
    → SavesRows r.state
    → SavesRows (read_line parse line m r).state
unfolding read_line
read_line-SavesRows parse line m r (set, aligned, calls) =
    let aligned' = (process_line-AddsRow parse line r.state.table aligned).1 in
    elim (Bool-cases (is_zero r.state.block_size)) [
      | inl e ↦ rw e (set, aligned', calls)
      | inr e ↦ rw e (dump-SavesRows false m.now m.opened _ (set, aligned', calls))
    ]

finish_file-SavesRows :
    (parse : Bytes → Parsed) (metrics : Bool) (job : FileJob) (r : FileRun)
    → SavesRows r.state
    → SavesRows (move_file parse job (finish_file parse metrics job.name job.own r))
unfolding finish_file move_file
finish_file-SavesRows parse true job r (set, aligned, calls) = rw set (set, aligned, calls)
finish_file-SavesRows parse false job r (set, aligned, calls) = rw set (set, aligned, calls)

-- With a delay or a block size set, each call of `save` over a whole `lifeProc` gets an aligned
-- table with at least one row.
pub life_proc-SavesRows :
    (parse : Bytes → Parsed) (metrics : Bool) (js : List (Option FileJob × Moment)) (last : Moment)
    (s : State)
    → SavesRows s
    → SavesRows (life_proc parse metrics js last s)
life_proc-SavesRows parse metrics js last s h =
    life_proc_keep parse metrics SavesRows (read_line-SavesRows parse)
      (finish_file-SavesRows parse metrics) dump-SavesRows js last s h
