-- ===== src/ClickTbl/Getters.antt =====
-- src/flexetl/clicktbl.inl: the getters of `Value`. A number is its bit pattern, as in `Value`.
-- Floating point, the calendar and `inet_addr` are the platform's.
pub mod Scan
pub mod Decimal
pub mod Print
pub mod SameText
pub mod Toy
mod Tests
use flexetl.Prelude.{
  ℕ, zero, suc, ◌+◌, ◌-◌, ◌*◌, ◌%◌, ◌^◌, Bool, true, false, List, [], ◌∷◌, ◌++◌, Option, none, some,
  ltb, ◌==◌, if◌then◌else◌,
}
use flexetl.Prelude.Words.{Bytes}
use flexetl.ClickTbl.Value.{Value, ClickType, unknown, str, int, uint, double, array, bool, type_of}
use flexetl.ClickTbl.Load.{c_string}
use flexetl.ClickTbl.Getters.Scan.{scan_long, scan_uuid}
use flexetl.ClickTbl.Getters.Decimal.{show_unsigned, show_signed}

-- A `double` is its 64 bits. `of_unsigned` to `to_float` are the conversions of it that C++ makes,
-- `seconds` and `day` what `strptime`, `mktime` and `timezone` make of a text, `address` is
-- `ntohl(inet_addr(s))`, and `now` is `std::time(0)`. `getDateTime` does not initialise its
-- `struct tm`: `stack_left` is what the stack holds there, and `seconds` depends on it.
pub record Platform : Type 0 where
  pub of_unsigned : ℕ → ℕ
  pub of_signed : ℕ → ℕ
  pub to_u64 : ℕ → ℕ
  pub to_u32 : ℕ → ℕ
  pub to_u16 : ℕ → ℕ
  pub to_u8 : ℕ → ℕ
  pub to_float : ℕ → ℕ
  pub scan_double : Bytes → Option ℕ
  pub show_double : ℕ → Bytes
  pub stack_left : ℕ
  pub seconds : ℕ → Bytes → ℕ
  pub day : Bytes → ℕ
  pub address : Bytes → ℕ
  pub now : ℕ

-- A variable that `sscanf` may leave at its first value 0.
abbrev pub or_zero : Option ℕ → ℕ
or_zero none = 0
or_zero (some n) = n

abbrev one_if : Bool → ℕ
one_if true = 1
one_if false = 0

unfoldable pub count_dots : Bytes → ℕ
count_dots [] = 0
count_dots (b ∷ s) = (if b == b'.' then 1 else 0) + count_dots s

-- `isNull`
unfoldable pub is_null : Value → Bool
is_null unknown = true
is_null _ = false

module _ (p : Platform) where
  -- `getString`
  unfoldable pub get_string : Value → Bytes
  get_string (str s) = s
  get_string (uint n) = show_unsigned n
  get_string (int n) = show_signed n
  get_string (double n) = p.show_double n
  get_string (bool true) = b't' ∷ b'r' ∷ b'u' ∷ b'e' ∷ []
  get_string (bool false) = b'f' ∷ b'a' ∷ b'l' ∷ b's' ∷ b'e' ∷ []
  get_string unknown = b'n' ∷ b'u' ∷ b'l' ∷ b'l' ∷ []
  get_string (array vs) = []

  -- `getDateTime` and `getDate`
  unfoldable pub get_date_time : Value → ℕ
  get_date_time (str s) = p.seconds p.stack_left (c_string s)
  get_date_time (int n) = n
  get_date_time (uint n) = n
  get_date_time _ = p.now

  unfoldable pub get_date : Value → ℕ
  get_date (str s) = p.day (c_string s)
  get_date (int n) = n
  get_date (uint n) = n
  get_date _ = 0

  -- `getDouble` and `getFloat`; the `double` 1.0 has the bits 0x3ff0000000000000.
  unfoldable pub get_double : Value → ℕ
  get_double (str s) = or_zero (p.scan_double (c_string s))
  get_double (uint n) = p.of_unsigned n
  get_double (int n) = p.of_signed n
  get_double (double n) = n
  get_double (bool true) = 0x3ff0000000000000
  get_double _ = 0

  unfoldable pub get_float : Value → ℕ
  get_float v = p.to_float (get_double v)

  -- `getUInt128`: the high and the low 64 bits.
  unfoldable pub get_uint128 : Value → ℕ × ℕ
  get_uint128 (str s) = elim (scan_uuid (c_string s)) [ none ↦ (0, 0) | some u ↦ u ]
  get_uint128 (uint n) = (0, n)
  get_uint128 (int n) = (0, n)
  get_uint128 (bool b) = (0, one_if b)
  get_uint128 _ = (0, 0)

  -- `getUInt64` and `getInt64`
  unfoldable pub get_uint64 : Value → ℕ
  get_uint64 (str s) = or_zero (scan_long (c_string s))
  get_uint64 (uint n) = n
  get_uint64 (int n) = n
  get_uint64 (double n) = p.to_u64 n
  get_uint64 (bool b) = one_if b
  get_uint64 _ = 0

  unfoldable pub get_int64 : Value → ℕ
  get_int64 v = get_uint64 v

  -- `getUInt32` and `getInt32`; `%d` stores the low 32 bits.
  unfoldable pub get_uint32 : Value → ℕ
  get_uint32 (str s) =
      if count_dots s == 3
      then p.address (c_string s)
      else or_zero (scan_long (c_string s)) % 2 ^ 32
  get_uint32 (uint n) = n % 2 ^ 32
  get_uint32 (int n) = n % 2 ^ 32
  get_uint32 (double n) = p.to_u32 n
  get_uint32 (bool b) = one_if b
  get_uint32 _ = 0

  unfoldable pub get_int32 : Value → ℕ
  get_int32 v = get_uint32 v

  -- `getUInt16` and `getInt16`
  unfoldable pub get_uint16 : Value → ℕ
  get_uint16 (str s) = or_zero (scan_long (c_string s)) % 2 ^ 32 % 2 ^ 16
  get_uint16 (uint n) = n % 2 ^ 16
  get_uint16 (int n) = n % 2 ^ 16
  get_uint16 (double n) = p.to_u16 n
  get_uint16 (bool b) = one_if b
  get_uint16 _ = 0

  unfoldable pub get_int16 : Value → ℕ
  get_int16 v = get_uint16 v

  -- `getUInt8` and `getInt8`
  unfoldable pub get_uint8 : Value → ℕ
  get_uint8 (str s) = or_zero (scan_long (c_string s)) % 2 ^ 32 % 2 ^ 8
  get_uint8 (uint n) = n % 2 ^ 8
  get_uint8 (int n) = n % 2 ^ 8
  get_uint8 (double n) = p.to_u8 n
  get_uint8 (bool b) = one_if b
  get_uint8 _ = 0

  unfoldable pub get_int8 : Value → ℕ
  get_int8 v = get_uint8 v
