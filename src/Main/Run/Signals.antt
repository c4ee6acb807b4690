-- ===== src/Main/Run/Signals.antt =====
-- src/flexetl/main.cpp: when the loop over the signals ends.
use flexetl.Prelude.{
  ℕ, ◌≡◌, ◌⊎◌, inl, inr, refl, true, false, List, [], ◌∷◌, ◌++◌, All, arith, Bool-cases, ◌≢◌, ne→==,
}
use flexetl.Main.Run.{Wait, failed, signal, exits, is_last, wait_signals}

-- The signals before one that ends the loop: each has a text and is neither SIGTERM (15) nor SIGINT (2).
abbrev pub IsPassed : Wait → Type 0
IsPassed failed = ⊥
IsPassed (signal sig has_text) = (has_text ≡ true) × (sig ≢ 15) × (sig ≢ 2)

-- `sigwait` fails, or gives SIGTERM or SIGINT, with a text.
abbrev pub IsLast : Wait → Type 0
IsLast failed = Unit
IsLast (signal sig has_text) = (has_text ≡ true) × ((sig ≡ 15) ⊎ (sig ≡ 2))

abbrev pub HasEnd : List Wait → Type 0
HasEnd ws =
    (before : List Wait) × (w : Wait) × (after : List Wait) × (ws ≡ before ++ w ∷ after)
    × All IsPassed before
    × IsLast w

last_signal : (sig : ℕ) → is_last sig ≡ true → (sig ≡ 15) ⊎ (sig ≡ 2)
last_signal sig h = ground arith

passed_signal : (sig : ℕ) → is_last sig ≡ false → (sig ≢ 15) × (sig ≢ 2)
passed_signal sig h = (λ e. ground arith, λ e. ground arith)

signal_last : (sig : ℕ) → (sig ≡ 15) ⊎ (sig ≡ 2) → is_last sig ≡ true
signal_last sig (inl e) = rw e refl
signal_last sig (inr e) = rw e refl

signal_passed : (sig : ℕ) → sig ≢ 15 → sig ≢ 2 → is_last sig ≡ false
signal_passed sig a b = rw (ne→== sig 15 a, ne→== sig 2 b) refl

pub wait_signals-HasEnd : (ws : List Wait) → wait_signals ws ≡ exits 0 → HasEnd ws
unfolding wait_signals
wait_signals-HasEnd [] h = absurd cc
wait_signals-HasEnd (failed ∷ ws) h = ([], failed, ws, refl, tt, tt)
wait_signals-HasEnd (signal sig false ∷ ws) h = absurd cc
wait_signals-HasEnd (signal sig true ∷ ws) h = elim (Bool-cases (is_last sig)) [
  | inl e ↦ ([], signal sig true, ws, refl, tt, (refl, last_signal sig e))
  | inr e ↦
      let (before, w, after, split, passed, last) = wait_signals-HasEnd ws (rw e at h) in
      (
        signal sig true ∷ before,
        w,
        after,
        cc,
        ((refl, (passed_signal sig e).0, (passed_signal sig e).1), passed),
        last,
      )
]

pub HasEnd-wait_signals :
    (before : List Wait) (w : Wait) (after : List Wait)
    → All IsPassed before
    → IsLast w
    → wait_signals (before ++ w ∷ after) ≡ exits 0
unfolding wait_signals
HasEnd-wait_signals [] failed after p l = refl
HasEnd-wait_signals [] (signal sig has_text) after p (text, last) =
    rw (text, signal_last sig last) refl
HasEnd-wait_signals (failed ∷ before) w after p l = absurd p.0
HasEnd-wait_signals (signal sig has_text ∷ before) w after ((text, a, b), p) l =
    rw (text, signal_passed sig a b) (HasEnd-wait_signals before w after p l)
