-- ===== src/Main/Run.antt =====
-- src/flexetl/main.cpp: `main`. `FlexEtl` and the signals that arrive are parameters.
pub mod Signals
pub mod Ends
use flexetl.Prelude.{
  ℕ, ◌*◌, ◌%◌, ◌^◌, ◌≤◌, ◌≡◌, ◌↔◌, ◌⊎◌, inl, inr, refl, Bool, true, false, not, ◌||◌, List, [], ◌∷◌,
  ◌++◌, Option, none, some, ltb, ◌==◌, if◌then◌else◌, All, arith, Bool-cases, length, ◌≢◌, ne→==,
  ==_iff, ap,
}
use flexetl.Prelude.Int.{ℤ}
use flexetl.Prelude.Words.{Bytes}
use flexetl.ClickTbl.Int32.{int32}
use flexetl.Main.Logging.{
  Library, Logger, HasFiles, spdlog_init, spdlog_init-HasFiles, HasFiles-spdlog_init,
}
use flexetl.Main.PidFile.{Os, Ending, returned, exited, overrun, pid_file}

-- The flags of main.cpp; the numbers are unsigned, of 32 bits.
pub record Flags : Type 0 where
  pub log_path : Bytes
  pub log_level : Bytes
  pub config_file : Bytes
  pub clean_backup : ℕ
  pub pid_lock : ℕ

-- What `ParseCommandLineFlags` does with the arguments: it returns, with the flags set, or ends the
-- process, with 0 for -version and the flags of help, with 1 for an error.
pub data Parsing : Type 0 where
  parsed : Flags → Parsing
  ends : ℕ → Parsing

-- `FlexEtl`: its `init`, which catches every exception (the parser of the flags may end the process
-- in it with 1, as `main` does where it returns false), and `start`, whose result `main` does not look at.
pub record Program (S : Type 0) : Type 0 where
  pub init : Bytes → ℤ → S → S × Bool
  pub start : S → S

-- What a call of `sigwait` gives: an error, or a signal and whether `sys_siglist` has a text for it.
pub data Wait : Type 0 where
  failed : Wait
  signal : ℕ → Bool → Wait

-- The process ends with a code, waits for a signal, is ended by an exception that nothing catches,
-- or has met undefined behaviour.
pub data Outcome : Type 0 where
  exits : ℕ → Outcome
  waits aborted crashed : Outcome

-- SIGTERM and SIGINT
abbrev pub is_last : ℕ → Bool
is_last sig = sig == 15 || sig == 2

-- The loop over the signals, and the end of `main`. A string of a null pointer throws.
unfoldable pub wait_signals : List Wait → Outcome
wait_signals [] = waits
wait_signals (failed ∷ ws) = exits 0
wait_signals (signal sig has_text ∷ ws) =
    let rest = wait_signals ws in
    if not has_text then aborted else if is_last sig then exits 0 else rest

-- `24 * FLAGS_clean_backup`, as an `int`.
abbrev pub clean_hours : ℕ → ℤ
clean_hours days = int32 ((24 * days) % 2 ^ 32)

-- "flexetl"
abbrev pub prog_name : Bytes
prog_name = b'f' ∷ b'l' ∷ b'e' ∷ b'x' ∷ b'e' ∷ b't' ∷ b'l' ∷ []

module _ {S W : Type 0} (program : Program S) (os : Os W) (library : Library) where
  -- `main` behind the pid file; without a logger, `logger->trace` is a call on a null pointer.
  unfoldable pub run_etl : Flags → Option Logger → List Wait → S → S × Outcome
  run_etl flags none ws s = (s, crashed)
  run_etl flags (some logger) ws s =
      let (s', good) = program.init flags.config_file (clean_hours flags.clean_backup) s in
      if not good then (s', exits 1) else (program.start s', wait_signals ws)

  -- `main` behind the parsing of the command line, in the process of a number.
  unfoldable pub run_parsed : Parsing → ℕ → List Wait → W → S → S × Outcome
  run_parsed (ends code) pid ws w s = (s, exits code)
  run_parsed (parsed flags) pid ws w s =
      let logger = spdlog_init library prog_name flags.log_path flags.log_level in
      elim (pid_file os (not (flags.pid_lock == 0)) pid w).1 [
        | exited ↦ (s, exits 1)
        | overrun ↦ (s, crashed)
        | returned ↦ run_etl flags logger ws s
      ]

  -- `main`, with its arguments; `parse` is `ParseCommandLineFlags`.
  unfoldable pub run : (List Bytes → Parsing) → List Bytes → ℕ → List Wait → W → S → S × Outcome
  run parse argv pid ws w s =
      if ltb (length argv) 2 then (s, exits 1) else run_parsed (parse argv) pid ws w s
