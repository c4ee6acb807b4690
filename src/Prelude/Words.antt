-- ===== src/Prelude/Words.antt =====
-- Fixed-width unsigned words as little-endian bytes, as x86-64 lays them out in memory.
use Prim.Native.Nat.{ℕ, zero, suc, ◌+◌, ◌*◌, ◌/◌, ◌%◌, ◌^◌, ◌<◌}
use mathlib.Core.Path.{◌≡◌}
use mathlib.Core.List.{List, [], ◌∷◌}
use native.Mathlib.Omega.{arith}
use native.Mathlib.Nat.{pow-suc}

-- A byte is a number below 256.
abbrev pub Bytes : Type 0
Bytes = List ℕ

unfoldable pub to_le : ℕ → ℕ → Bytes
to_le zero n = []
to_le (suc w) n = (n % 256) ∷ to_le w (n / 256)

unfoldable pub of_le : Bytes → ℕ
of_le [] = 0
of_le (b ∷ bs) = b + 256 * of_le bs

-- A word that fits its width is read back from its bytes.
pub of_le-to_le : (w n : ℕ) → n < 256 ^ w → of_le (to_le w n) ≡ n
unfolding to_le of_le
of_le-to_le zero n h = omega arith
of_le-to_le (suc w) n h =
    omega (arith, pow-suc 256 w, of_le-to_le w (n / 256) (omega (arith, pow-suc 256 w)))
