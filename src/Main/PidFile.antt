-- ===== src/Main/PidFile.antt =====
-- src/stem/pid_file.h: the constructor of `PidFile`. The system calls on the file are parameters,
-- on the state of the file system and its locks.
pub mod Exclusion
pub mod Content
use flexetl.Prelude.{
  ℕ, suc, ◌+◌, ◌^◌, ◌≤◌, ◌<◌, ◌≡◌, ◌≢◌, refl, ap, sym, ◌∙◌, Bool, true, false, not, List, [], ◌∷◌,
  ◌++◌, Option, none, some, length, drop, ltb, ◌==◌, if◌then◌else◌, arith,
}
use flexetl.Prelude.Words.{Bytes}
use flexetl.ClickTbl.Getters.Decimal.{show_unsigned}

-- The calls by the process of a number: whether `open` gives a handle, whether `lockf` gives the
-- lock, and how much `write` wrote, `none` if it fails.
pub record Os (W : Type 0) : Type 0 where
  pub opens : ℕ → W → W × Bool
  pub lockf : ℕ → W → W × Bool
  pub write : ℕ → Bytes → W → W × Option ℕ

-- How the constructor ends: it returns, it calls `exit`, or `sprintf` runs over its buffer.
pub data Ending : Type 0 where
  returned exited overrun : Ending

-- `char str[10]; sprintf(str, "%d\n", getpid())`: the text and its zero byte, `none` if they do not
-- fit.
unfoldable pub format_pid : ℕ → Option Bytes
format_pid pid =
    let text = show_unsigned pid ++ 10 ∷ [] in if ltb (length text) 10 then some text else none

-- `write(...) != strlen(str)`: a failure is no size.
abbrev pub wrote_all : Bytes → Option ℕ → Bool
wrote_all text none = false
wrote_all text (some n) = n == length text

module _ {W : Type 0} (os : Os W) where
  -- The end of the constructor, with the lock.
  unfoldable pub write_pid : ℕ → W → W × Ending
  write_pid pid w = elim (format_pid pid) [
    | none ↦ (w, overrun)
    | some text ↦
        let (w', written) = os.write pid text w in
        (w', if wrote_all text written then returned else exited)
  ]

  -- `PidFile(use, pidfile)` in the process of that number.
  unfoldable pub pid_file : Bool → ℕ → W → W × Ending
  pid_file false pid w = (w, returned)
  pid_file true pid w =
      let (w₁, opened) = os.opens pid w in
      let (w₂, locked) = os.lockf pid w₁ in
      if not opened then (w₁, exited) else if not locked then (w₂, exited) else write_pid pid w₂
