-- ===== src/ClickTbl/Getters/Scan.antt =====
-- What src/flexetl/clicktbl.inl uses of `sscanf`, as the GNU C library does it: an integer that does
-- not fit 64 bits becomes the nearest that does, and `%d` stores the low 32 bits of a `%ld`.
use flexetl.Prelude.{
  ℕ, ◌+◌, ◌-◌, ◌*◌, ◌%◌, ◌^◌, Bool, true, false, ◌&&◌, ◌||◌, [], ◌∷◌, Option, none, some, ltb, leb,
  ◌==◌, min, if◌then◌else◌, bit_or,
}
use flexetl.Prelude.Words.{Bytes}

unfoldable pub is_space : ℕ → Bool
is_space c = c == 32 || leb 9 c && leb c 13

unfoldable pub skip_spaces : Bytes → Bytes
skip_spaces [] = []
skip_spaces (c ∷ s) = let rest = skip_spaces s in if is_space c then rest else c ∷ s

-- The value of a digit in a base of at most sixteen.
unfoldable pub digit_of : ℕ → ℕ → Option ℕ
digit_of base c =
    let v =
      if leb b'0' c && leb c b'9'
      then c - b'0'
      else if leb b'a' c && leb c b'f'
      then c - b'a' + 10
      else if leb b'A' c && leb c b'F'
      then c - b'A' + 10
      else base in
    if ltb v base then some v else none

-- The number of the digits in front, after `n`, and what is left.
unfoldable pub scan_digits : ℕ → Bytes → ℕ → ℕ × Bytes
scan_digits base [] n = (n, [])
scan_digits base (c ∷ s) n = elim (digit_of base c) [
  | none ↦ (n, c ∷ s)
  | some d ↦ scan_digits base s (n * base + d)
]

-- At least one digit.
unfoldable pub scan_number : ℕ → Bytes → Option (ℕ × Bytes)
scan_number base [] = none
scan_number base (c ∷ s) = elim (digit_of base c) [
  | none ↦ none
  | some d ↦ some (scan_digits base s d)
]

-- Whether a sign says minus, and what is behind it.
unfoldable pub scan_sign : Bytes → Bool × Bytes
scan_sign [] = (false, [])
scan_sign (c ∷ s) =
    if c == b'-' then (true, s) else if c == b'+' then (false, s) else (false, c ∷ s)

-- A signed number of 64 bits as its pattern.
unfoldable pub signed_64 : Bool → ℕ → ℕ
signed_64 true n = (2 ^ 64 - min n (2 ^ 63)) % 2 ^ 64
signed_64 false n = min n (2 ^ 63 - 1)

-- The digits behind a sign.
unfoldable pub read_signed : Bool × Bytes → Option ℕ
read_signed (minus, digits) = elim (scan_number 10 digits) [
  | none ↦ none
  | some (n, rest) ↦ some (signed_64 minus n)
]

-- `sscanf(s, "%ld", &n)`: `none` if nothing is stored.
unfoldable pub scan_long : Bytes → Option ℕ
scan_long s = read_signed (scan_sign (skip_spaces s))

-- `%lx`: a prefix 0x is skipped, and a sign negates modulo 2 ^ 64.
unfoldable pub skip_0x : Bytes → Bytes
skip_0x (a ∷ b ∷ s) = if a == b'0' && (b == b'x' || b == b'X') then s else a ∷ b ∷ s
skip_0x s = s

unfoldable pub unsigned_64 : Bool → ℕ → ℕ
unsigned_64 true n = if ltb n (2 ^ 64) then (2 ^ 64 - n) % 2 ^ 64 else 2 ^ 64 - 1
unsigned_64 false n = min n (2 ^ 64 - 1)

unfoldable pub scan_hex : Bytes → Option (ℕ × Bytes)
scan_hex s =
    let (minus, digits) = scan_sign (skip_spaces s) in
    elim (scan_number 16 (skip_0x digits)) [
      | none ↦ none
      | some (n, rest) ↦ some (unsigned_64 minus n, rest)
    ]

-- `-%lx`
unfoldable pub scan_dash_hex : Bytes → Option (ℕ × Bytes)
scan_dash_hex [] = none
scan_dash_hex (c ∷ s) = if c == b'-' then scan_hex s else none

-- `u << k` on 64 bits.
abbrev pub shl_64 : ℕ → ℕ → ℕ
shl_64 u k = (u * 2 ^ k) % 2 ^ 64

infixl 5 ◌>>=◌
abbrev ◌>>=◌ {ℓ κ} : {A : Type ℓ} {B : Type κ} → Option A → (A → Option B) → Option B
none >>= f = none
some a >>= f = f a

-- `sscanf(s, "%lx-%lx-%lx-%lx-%lx", ...)` and the two words made of its five numbers, `none` unless
-- all five are there.
unfoldable pub scan_uuid : Bytes → Option (ℕ × ℕ)
unfolding scan_dash_hex
scan_uuid s = do
  (u1, s1) ← scan_hex s
  (u2, s2) ← scan_dash_hex s1
  (u3, s3) ← scan_dash_hex s2
  (u4, s4) ← scan_dash_hex s3
  (u5, s5) ← scan_dash_hex s4
  some (bit_or (bit_or (shl_64 u1 32) (shl_64 u2 16)) u3, bit_or (shl_64 u4 48) u5)
