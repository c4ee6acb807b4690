-- ===== src/Json2Click/State/Dump.antt =====
-- `dump`, case by case.
use flexetl.Prelude.{
  ℕ, ◌≡◌, ◌≢◌, inl, inr, Bool, false, not, ◌&&◌, Option, arith, ◌==◌, if◌then◌else◌, Bool-cases,
  ==_iff,
}
use flexetl.ClickTbl.Stream.{Stream}
use flexetl.Json2Click.State.{State, is_zero, reaches_block, reaches_delay, save_now, dump}

abbrev pub block_over : State → Bool
block_over s =
    if not (is_zero s.block_size) then reaches_block s.block_size s.table.row_count else false

abbrev pub delay_over : ℕ → State → Bool
delay_over now s = if not (is_zero s.delay) then reaches_delay s.delay s.save_time now else false

-- To prove `P` of a state after `dump`, prove it in each of the four ways that `dump` can go.
pub dump_cases {ℓ} :
    (P : State → Type ℓ) (forced : Bool) (now : ℕ) (fl : Option Stream) (s : State)
    → (s.table.row_count ≡ 0 → P s)
    → (forced ≡ false → s.save_time ≡ 0 → P (record s { save_time = now }))
    → (forced ≡ false → s.save_time ≢ 0 → block_over s ≡ false → delay_over now s ≡ false → P s)
    → (s.table.row_count ≢ 0 → P (save_now now fl s))
    → P (dump forced now fl s)
unfolding dump
dump_cases P forced now fl s empty first wait full = elim (Bool-cases (s.table.row_count == 0)) [
  | inl e ↦ rw e (empty ((==_iff _ _).0 e))
  | inr rows ↦ rw rows (elim (Bool-cases (not forced && s.save_time == 0)) [
    | inl e ↦ rw e (first (ground arith) (ground arith))
    | inr timed ↦
        rw timed (elim (Bool-cases (not forced && not (block_over s) && not (delay_over now s))) [
          | inl e ↦ rw e (wait (ground arith) (ground arith) (ground arith) (ground arith))
          | inr over ↦ rw over (full (ground arith))
        ])
  ])
]
