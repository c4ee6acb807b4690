-- ===== src/ClickTbl/Getters/Decimal.antt =====
-- `std::stringstream << n` for an integer of 64 bits.
use flexetl.Prelude.{ℕ, zero, suc, ◌+◌, ◌-◌, ◌/◌, ◌%◌, ◌^◌, [], ◌∷◌, ◌++◌, ltb, if◌then◌else◌}
use flexetl.Prelude.Words.{Bytes}

-- The digits of a number, by at most so many of them.
unfoldable pub digits : ℕ → ℕ → Bytes
digits zero n = []
digits (suc f) n =
    let more = digits f (n / 10) in
    if ltb n 10 then (b'0' + n) ∷ [] else more ++ (b'0' + n % 10) ∷ []

-- A number below 2 ^ 64 has twenty digits at most.
unfoldable pub show_unsigned : ℕ → Bytes
show_unsigned n = digits 20 n

-- The number is its two's complement.
unfoldable pub show_signed : ℕ → Bytes
show_signed n = if ltb n (2 ^ 63) then show_unsigned n else b'-' ∷ show_unsigned (2 ^ 64 - n)
