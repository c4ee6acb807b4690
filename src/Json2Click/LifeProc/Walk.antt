-- ===== src/Json2Click/LifeProc/Walk.antt =====
-- An invariant of `lifeProc` from an invariant of its steps, while the clock never goes back.
use flexetl.Prelude.{
  ℕ, ◌≤◌, ◌≡◌, Bool, true, false, not, ◌||◌, List, [], ◌∷◌, Option, none, some, length, arith, inl,
  inr, Bool-cases, Option-cases,
}
use flexetl.Prelude.Words.{Bytes}
use flexetl.Json2Click.Handler.{is_empty}
use flexetl.Json2Click.Line.{Parsed}
use flexetl.Json2Click.State.{State, is_zero, dump}
use flexetl.Json2Click.LifeProc.{
  Moment, FileJob, FileRun, lines, read_line, read_lines, finish_file, move_file, process_file,
  delay_dump, round, rounds, life_proc,
}

-- The clock over the lines of a file, from a second on and up to another.
abbrev pub LinesFrom : ℕ → ℕ → (ℕ → Moment) → List Bytes → Type 0
LinesFrom lo hi clock [] = lo ≤ hi
LinesFrom lo hi clock (line ∷ ls) =
    (lo ≤ (clock (length ls)).now) × LinesFrom (clock (length ls)).now hi clock ls

abbrev pub RoundFrom : ℕ → ℕ → Option FileJob → Type 0
RoundFrom lo hi none = lo ≤ hi
RoundFrom lo hi (some job) =
    (lo ≤ hi)
    × ((content : Bytes)
        → job.content ≡ some content
        → LinesFrom lo hi job.clock (lines (length content) content))

-- The clock over all rounds, up to the last look at it.
abbrev pub NeverBack : ℕ → List (Option FileJob × Moment) → Moment → Type 0
NeverBack lo [] last = lo ≤ last.now
NeverBack lo ((job, m) ∷ js) last = RoundFrom lo m.now job × NeverBack m.now js last

module _ {ℓ} (parse : Bytes → Parsed) (metrics : Bool) (P : ℕ → State → Type ℓ)
    (later : (lo hi : ℕ) (s : State) → lo ≤ hi → P lo s → P hi s)
    (line_step : (line : Bytes) (m : Moment) (r : FileRun) (lo : ℕ)
      → lo ≤ m.now
      → P lo r.state
      → P m.now (read_line parse line m r).state)
    (finish_step : (job : FileJob) (r : FileRun) (lo : ℕ)
      → P lo r.state
      → P lo (move_file parse job (finish_file parse metrics job.name job.own r)))
    (dump_step : (forced : Bool) (m : Moment) (s : State) (lo : ℕ)
      → lo ≤ m.now
      → P lo s
      → P m.now (dump forced m.now m.opened s)) where
  lines_walk :
      (clock : ℕ → Moment) (ls : List Bytes) (r : FileRun) (lo hi : ℕ)
      → LinesFrom lo hi clock ls
      → P lo r.state
      → P hi (read_lines parse clock ls r).state
  unfolding read_lines
  lines_walk clock [] r lo hi c p = later lo hi r.state c p
  lines_walk clock (line ∷ ls) r lo hi (c, cs) p =
      lines_walk clock ls _ _ hi cs (line_step line (clock (length ls)) r lo c p)

  file_walk :
      (job : FileJob) (content : Bytes) (s : State) (lo hi : ℕ)
      → LinesFrom lo hi job.clock (lines (length content) content)
      → P lo s
      → P hi (process_file parse metrics job content s)
  unfolding process_file
  file_walk job content s lo hi c p =
      finish_step job _ hi (lines_walk job.clock (lines (length content) content) _ lo hi c p)

  delay_walk :
      (m : Moment) (s : State) (lo : ℕ) → lo ≤ m.now → P lo s → P m.now (delay_dump parse m s)
  delay_walk m s lo c p = elim (Bool-cases (is_zero s.delay)) [
    | inl e ↦ rw e (later lo m.now s c p)
    | inr e ↦ rw e (dump_step false m s lo c p)
  ]

  round_walk :
      (job : Option FileJob) (m : Moment) (s : State) (lo : ℕ)
      → RoundFrom lo m.now job
      → P lo s
      → P m.now (round parse metrics job m s)
  unfolding round
  round_walk none m s lo c p = delay_walk m s lo c p
  round_walk (some job) m s lo (c, cs) p = elim (Bool-cases (is_empty job.name)) [
    | inl e ↦ rw e (delay_walk m s lo c p)
    | inr named ↦ rw named (elim (Option-cases job.content) [
      | inl e ↦ rw e (later lo m.now s c p)
      | inr (content, e) ↦ rw e (
          delay_walk m (process_file parse metrics job content s) m.now (omega arith)
            (file_walk job content s lo m.now (cs content e) p))
    ])
  ]

  rounds_walk :
      (js : List (Option FileJob × Moment)) (last : Moment) (s : State) (lo : ℕ)
      → NeverBack lo js last
      → P lo s
      → P last.now (rounds parse metrics js s)
  unfolding rounds
  rounds_walk [] last s lo c p = later lo last.now s c p
  rounds_walk ((job, m) ∷ js) last s lo (c, cs) p =
      rounds_walk js last _ m.now cs (round_walk job m s lo c p)

  pub life_proc_walk :
      (js : List (Option FileJob × Moment)) (last : Moment) (s : State) (lo : ℕ)
      → NeverBack lo js last
      → P lo s
      → P last.now (life_proc parse metrics js last s)
  unfolding life_proc
  life_proc_walk js last s lo c p =
      let s' = rounds parse metrics js s in
      let p' = rounds_walk js last s lo c p in
      elim (Bool-cases (not (is_zero s'.delay) || not (is_zero s'.block_size))) [
        | inl e ↦ rw e (dump_step true last s' last.now (omega arith) p')
        | inr e ↦ rw e p'
      ]
