-- ===== src/Main/Run/Ends.antt =====
-- src/flexetl/main.cpp: when `main` ends well.
use flexetl.Prelude.{
  ℕ, ◌≤◌, ◌≡◌, ◌↔◌, ◌⊎◌, inl, inr, refl, true, not, List, Option, none, some, ltb, ◌==◌, arith,
  Bool-cases, length, ==_iff, ap,
}
use flexetl.Prelude.Words.{Bytes}
use flexetl.Main.Logging.{
  Library, Logger, HasFiles, spdlog_init, spdlog_init-HasFiles, HasFiles-spdlog_init,
}
use flexetl.Main.PidFile.{Os, Ending, returned, exited, overrun, pid_file}
use flexetl.Main.Run.{
  Flags, Parsing, parsed, ends, Program, Wait, Outcome, exits, clean_hours, prog_name, run_etl,
  run_parsed, run,
}
use flexetl.Main.Run.Signals.{HasEnd, wait_signals-HasEnd, HasEnd-wait_signals}

Ending-cases : (e : Ending) → (e ≡ returned) ⊎ (e ≡ exited) ⊎ (e ≡ overrun)
Ending-cases returned = inl refl
Ending-cases exited = inr (inl refl)
Ending-cases overrun = inr (inr refl)

failing : ◌≡◌ {A = Outcome} (exits 1) (exits 0) → ⊥
failing p = cc

module _ {S W : Type 0} (program : Program S) (os : Os W) (library : Library) where
  -- The program runs behind these flags until it ends well.
  abbrev pub RunsWell : Flags → ℕ → List Wait → W → S → Type 0
  RunsWell flags pid ws w s =
      ((flags.pid_lock ≡ 0) ⊎ ((pid_file os true pid w).1 ≡ returned))
      × HasFiles library flags.log_path flags.log_level
      × ((program.init flags.config_file (clean_hours flags.clean_backup) s).1 ≡ true)
      × HasEnd ws

  -- What the command line leads to.
  abbrev pub ParsesWell : Parsing → ℕ → List Wait → W → S → Type 0
  ParsesWell (ends code) pid ws w s = code ≡ 0
  ParsesWell (parsed flags) pid ws w s = RunsWell flags pid ws w s

  run_etl-HasEnd :
      (flags : Flags) (o : Option Logger) (ws : List Wait) (s : S)
      → (run_etl program os library flags o ws s).1 ≡ exits 0
      → ((logger : Logger) × (o ≡ some logger))
        × ((program.init flags.config_file (clean_hours flags.clean_backup) s).1 ≡ true)
        × HasEnd ws
  unfolding run_etl
  run_etl-HasEnd flags none ws s h = absurd cc
  run_etl-HasEnd flags (some logger) ws s h =
      elim (Bool-cases (program.init flags.config_file (clean_hours flags.clean_backup) s).1) [
        | inl e ↦ ((logger, refl), e, wait_signals-HasEnd ws (rw e at h))
        | inr e ↦ absurd (failing (rw e at h))
      ]

  let_in_fwd :
      (n pid : ℕ) (w : W)
      → (pid_file os (not (n == 0)) pid w).1 ≡ returned
      → (n ≡ 0) ⊎ ((pid_file os true pid w).1 ≡ returned)
  let_in_fwd n pid w h = elim (Bool-cases (n == 0)) [
    | inl e ↦ inl ((==_iff n 0).0 e)
    | inr e ↦ inr (rw e at h)
  ]

  let_in_bwd :
      (n pid : ℕ) (w : W)
      → (n ≡ 0) ⊎ ((pid_file os true pid w).1 ≡ returned)
      → (pid_file os (not (n == 0)) pid w).1 ≡ returned
  unfolding pid_file
  let_in_bwd n pid w (inl e) = rw e refl
  let_in_bwd n pid w (inr h) = elim (Bool-cases (n == 0)) [ inl e ↦ rw e refl | inr e ↦ rw e h ]

  run_parsed-ParsesWell :
      (r : Parsing) (pid : ℕ) (ws : List Wait) (w : W) (s : S)
      → (run_parsed program os library r pid ws w s).1 ≡ exits 0
      → ParsesWell r pid ws w s
  unfolding run_parsed
  run_parsed-ParsesWell (ends code) pid ws w s h = code_zero h
    where
      code_zero : ◌≡◌ {A = Outcome} (exits code) (exits 0) → code ≡ 0
      code_zero p = cc
  run_parsed-ParsesWell (parsed flags) pid ws w s h =
      let locks = not (flags.pid_lock == 0) in
      elim (Ending-cases (pid_file os locks pid w).1) [
        | inl e ↦
            let logger = spdlog_init library prog_name flags.log_path flags.log_level in
            let ((made, is_made), started, ended) =
              run_etl-HasEnd flags logger ws s (rw (run_parsed, e) at h) in
            (
              let_in_fwd flags.pid_lock pid w e,
              spdlog_init-HasFiles library prog_name flags.log_path flags.log_level made is_made,
              started,
              ended,
            )
        | inr (inl e) ↦ absurd (failing (rw (run_parsed, e) at h))
        | inr (inr e) ↦ absurd (cc (rw (run_parsed, e) at h))
      ]

  ParsesWell-run_parsed :
      (r : Parsing) (pid : ℕ) (ws : List Wait) (w : W) (s : S)
      → ParsesWell r pid ws w s
      → (run_parsed program os library r pid ws w s).1 ≡ exits 0
  unfolding run_parsed run_etl
  ParsesWell-run_parsed (ends code) pid ws w s h = ap exits h
  ParsesWell-run_parsed (parsed flags) pid ws w s
        (lock, files, started, (before, last, after, split, passed, is_end)) =
      let (logger, made) =
        HasFiles-spdlog_init library prog_name flags.log_path flags.log_level files in
      rw (run_parsed, let_in_bwd flags.pid_lock pid w lock, made, started, split)
        (HasEnd-wait_signals before last after passed is_end)

  -- What a run that ends well takes.
  abbrev pub IsWell : (List Bytes → Parsing) → List Bytes → ℕ → List Wait → W → S → Type 0
  IsWell parse argv pid ws w s = (2 ≤ length argv) × ParsesWell (parse argv) pid ws w s

  -- `main` ends with the code 0 if and only if it has an argument, and either gflags ends the process
  -- with that code as it parses the command line (as it does on -version), or these hold: the pid file
  -- is off or lets it in, each log file of a level that is written can be opened, `init` succeeds, and
  -- then `sigwait` fails or gives SIGTERM (15) or SIGINT (2) with a text, after other signals that have
  -- a text.
  pub run-IsWell :
      (parse : List Bytes → Parsing) (argv : List Bytes) (pid : ℕ) (ws : List Wait) (w : W) (s : S)
      → ((run program os library parse argv pid ws w s).1 ≡ exits 0) ↔ IsWell parse argv pid ws w s
  unfolding run
  run-IsWell parse argv pid ws w s = elim (Bool-cases (ltb (length argv) 2)) [
    | inl e ↦ rw (run, e) (λ h. absurd (failing h), λ h. absurd (ground arith))
    | inr e ↦
        rw (run, e)
          (
            λ h. (ground arith, run_parsed-ParsesWell (parse argv) pid ws w s h),
            λ h. ParsesWell-run_parsed (parse argv) pid ws w s h.1,
          )
  ]
