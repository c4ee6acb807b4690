-- ===== src/Main/Tests.antt =====
-- The pid file and `main` on small inputs.
use flexetl.Prelude.{
  ℕ, ◌+◌, ◌≤◌, ◌≡◌, ◌≢◌, ◌↔◌, ◌⊎◌, refl, sym, ap, ◌∙◌, Bool, true, false, [], ◌∷◌, ◌++◌, List,
  Option, none, some, length, drop, All, arith, ◌==◌, ==_iff, if◌then◌else◌, ne→==,
}
use flexetl.Prelude.Words.{Bytes}
use flexetl.ClickTbl.Load.{c_string}
use flexetl.ClickTbl.Getters.Decimal.{digits, show_unsigned}
use flexetl.ClickTbl.Getters.Scan.{scan_long}
use flexetl.Main.PidFile.{Os, returned, exited, format_pid, write_pid, pid_file}
use flexetl.Main.PidFile.Exclusion.{Locks, Reaches, begin, starts, fails, stops, Reaches-length}
use flexetl.Main.PidFile.Content.{Contents, pid_file-scan_long}
use flexetl.Main.Logging.{Library, file_sinks, spdlog_init}
use flexetl.Main.Run.{
  Flags, Parsing, parsed, Program, Wait, signal, exits, wait_signals, run_etl, run_parsed, run,
}
use flexetl.Main.Run.Ends.{IsWell, run-IsWell}

-- A file with the process that has its lock.
pub record File : Type 0 where
  pub holder : Option ℕ
  pub content : Bytes

abbrev take_lock : ℕ → File → Option ℕ → File × Bool
take_lock p w none = (record w { holder = some p }, true)
take_lock p w (some q) = (w, q == p)

abbrev let_go : ℕ → Option ℕ → Option ℕ
let_go p none = none
let_go p (some q) = if q == p then none else some q

abbrev os : Os File
os = record {
  opens = λ p w. (w, true);
  lockf = λ p w. take_lock p w w.holder;
  write =
      λ p text w. (record w { content = text ++ drop (length text) w.content }, some (length text));
}

abbrev ends : ℕ → File → File
ends p w = record w { holder = let_go p w.holder }

abbrev Holds : File → ℕ → Type 0
Holds w q = w.holder ≡ some q

refused : (p q : ℕ) (w : File) → Holds w q → q ≢ p → (take_lock p w w.holder).1 ≡ false
refused p q w h d = rw h (ne→== q p d)

take_held :
    (p : ℕ) (w : File) (o : Option ℕ)
    → o ≡ w.holder
    → (take_lock p w o).1 ≡ true
    → Holds (take_lock p w o).0 p
take_held p w none e h = refl
take_held p w (some q) e h = sym e ∙ ap some ((==_iff q p).0 h)

take_content : (p : ℕ) (w : File) (o : Option ℕ) → (take_lock p w o).0.content ≡ w.content
take_content p w none = refl
take_content p w (some q) = refl

locks : Locks os ends Holds
locks = record {
  lockf-refused = refused;
  lockf-held = λ p w h. take_held p w w.holder refl h;
  lockf-keeps = λ p q w h. rw h refl;
  opens-keeps = λ p q w h. h;
  write-keeps = λ p q text w h. h;
  ends-keeps = λ p q w h d. rw (h, ne→== q p d) refl;
}

contents : Contents os (λ w. w.content)
contents = record {
  opens-content = λ p w. refl;
  lockf-content = λ p w. take_content p w w.holder;
  write-content = λ p text w h. refl;
}

-- The file has the number of an earlier process.
abbrev old : File
old = record { holder = none; content = b'1' ∷ b'2' ∷ b'3' ∷ b'4' ∷ b'5' ∷ 10 ∷ [] }

abbrev with_5 : File
with_5 = (pid_file os true 5 old).0

abbrev after_7 : File
after_7 = ends 7 (pid_file os true 7 with_5).0

returned_5 : (pid_file os true 5 old).1 ≡ returned
unfolding pid_file write_pid format_pid show_unsigned digits
returned_5 = refl

exited_7 : (pid_file os true 7 with_5).1 ≡ exited
unfolding pid_file write_pid format_pid show_unsigned digits
exited_7 = refl

-- The process 5 starts, 7 does not get in, 5 ends, and then 7 gets in.
two_starts :
    (pid_file os true 7 (ends 5 after_7)).1 ≡ returned
    → Reaches os ends Holds old (pid_file os true 7 (ends 5 after_7)).0 (7 ∷ [])
two_starts again =
    starts _ [] 7
      (stops _ [] [] 5 (
        fails with_5 (5 ∷ []) 7 (starts old [] 5 begin tt returned_5)
          (λ e. absurd (omega (arith, e)), tt) (λ e. absurd (cc (e, exited_7)))))
      tt again

returned_7 : (pid_file os true 7 (ends 5 after_7)).1 ≡ returned
unfolding pid_file write_pid format_pid show_unsigned digits
returned_7 = refl

abbrev one_live : List ℕ
one_live = 7 ∷ []

Reaches-length_example :
    (length one_live ≤ 1) × All (Holds (pid_file os true 7 (ends 5 after_7)).0) one_live
Reaches-length_example = Reaches-length os ends Holds locks old _ one_live (two_starts returned_7)

pid_file-scan_long_example :
    let (w', e) = pid_file os true 99 old in
    (e ≡ exited)
    ⊎ ((e ≡ returned)
        × (w'.content ≡ show_unsigned 99 ++ 10 ∷ drop (length (show_unsigned 99) + 1) old.content)
        × (scan_long (c_string w'.content) ≡ some 99))
pid_file-scan_long_example = pid_file-scan_long os (λ w. w.content) contents 99 old (omega arith)

-- What stays of the old number is a line of its own.
leftover : (pid_file os true 99 old).0.content ≡ b'9' ∷ b'9' ∷ 10 ∷ b'4' ∷ b'5' ∷ 10 ∷ []
unfolding pid_file write_pid format_pid show_unsigned digits
leftover = refl

abbrev flags : Flags
flags = record {
  log_path = b'l' ∷ [];
  log_level = [];
  config_file = [];
  clean_backup = 3;
  pid_lock = 1;
}

-- A command line of one argument, "-version" say, ends in the parser.
abbrev parse : List Bytes → Parsing
parse argv = if length argv == 2 then Parsing.ends 0 else parsed flags

abbrev argv : List Bytes
argv = (b'f' ∷ []) ∷ (b'a' ∷ []) ∷ (b'b' ∷ []) ∷ []

abbrev library : Library
library = record { from_str = λ s. 2; to_string_view = λ l. []; opens = λ f. true }

abbrev program : Program ℕ
program = record { init = λ file hours s. (s + 1, true); start = λ s. s + 1 }

-- SIGHUP passes, SIGTERM ends the loop.
abbrev hangs_up : List Wait
hangs_up = signal 1 true ∷ signal 15 true ∷ signal 1 true ∷ []

run-IsWell_example :
    ((run program os library parse argv 5 hangs_up old 0).1 ≡ exits 0)
    ↔ IsWell program os library parse argv 5 hangs_up old 0
run-IsWell_example = run-IsWell program os library parse argv 5 hangs_up old 0

ends_well : (run program os library parse argv 5 hangs_up old 0).1 ≡ exits 0
unfolding run run_parsed run_etl wait_signals pid_file write_pid format_pid show_unsigned digits
    spdlog_init file_sinks
ends_well = refl
