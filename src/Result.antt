-- ===== src/Result.antt =====
-- The outcome of code that may throw, and the readers of a binary file.
use flexetl.Prelude.{ℕ, Bool, true, false, length, take, drop, ltb, if◌then◌else◌}
use flexetl.Prelude.Words.{Bytes, of_le}

-- The exceptions that src/flexetl/clicktbl.cpp throws, those of `column2ClickColumn` in click2db.cpp
-- and any of the client library.
pub data Error : Type 0 where
  not_an_array open_failed bad_length unknown_type : Error
  read_type_failed read_string_length_failed read_string_failed : Error
  read_array_length_failed read_value_failed : Error
  read_key_failed read_mask_failed invalid_key invalid_mask : Error
  read_column_count_failed read_row_count_failed read_name_size_failed read_name_failed : Error
  convert_to_enum_failed unsupported_type client_failed : Error

-- `fault`: the C++ standard leaves the behaviour undefined. `out_of_fuel` has no counterpart in
-- the program.
pub data Result {ℓ} (A : Type ℓ) : Type ℓ where
  ok : A → Result A
  throws : Error → Result A
  fault out_of_fuel : Result A

abbrev pub bind {ℓ κ} : {A : Type ℓ} {B : Type κ} → Result A → (A → Result B) → Result B
bind (ok a) f = f a
bind (throws e) f = throws e
bind fault f = fault
bind out_of_fuel f = out_of_fuel

-- A reader takes what is left of the file, and returns a value with the rest.
abbrev pub Reader {ℓ} : Type ℓ → Type ℓ
Reader A = Bytes → Result (A × Bytes)

abbrev pub pure {ℓ} : {A : Type ℓ} → A → Reader A
pure a bs = ok (a, bs)

abbrev pub raise {ℓ} : {A : Type ℓ} → Error → Reader A
raise e bs = throws e

abbrev pub crash {ℓ} : {A : Type ℓ} → Reader A
crash bs = fault

abbrev pub spent {ℓ} : {A : Type ℓ} → Reader A
spent bs = out_of_fuel

infixl 1 ◌>>=◌ ◌>>◌
abbrev pub ◌>>=◌ {ℓ κ} : {A : Type ℓ} {B : Type κ} → Reader A → (A → Reader B) → Reader B
(r >>= k) bs = bind (r bs) λ (a, rest). k a rest

abbrev pub ◌>>◌ {ℓ κ} : {A : Type ℓ} {B : Type κ} → Reader A → Reader B → Reader B
r >> s = r >>= λ _. s

-- `assert1(test, message)`
abbrev pub require : Bool → Error → Reader (Unit {0})
require true e = pure tt
require false e = raise e

-- `assert1(n == fread(buffer, 1, n, fl), message)`
unfoldable pub fread : ℕ → Error → Reader Bytes
fread n e bs = if ltb (length bs) n then throws e else ok (take n bs, drop n bs)

-- The same for a number of `n` bytes.
unfoldable pub fread_word : ℕ → Error → Reader ℕ
fread_word n e = do bs ← fread n e; pure (of_le bs)

-- `for (int i = 0; i < n; i++) body`, by the rounds that are left.
unfoldable pub for_rounds {ℓ} : {S : Type ℓ} → ℕ → (S → Reader S) → S → Reader S
for_rounds ℕ.zero body s = pure s
for_rounds (ℕ.suc n) body s = do s' ← body s; for_rounds n body s'
