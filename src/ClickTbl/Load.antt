-- ===== src/ClickTbl/Load.antt =====
-- src/flexetl/clicktbl.cpp: `restoreValue` and `ClickTable::load`. Memory is taken to suffice for
-- what the file announces.
use flexetl.Prelude.{
  ℕ, zero, suc, ◌+◌, ◌-◌, ◌^◌, Option, none, some, [], ◌∷◌, length, Bool, true, false, ◌==◌,
  if◌then◌else◌,
}
use flexetl.Prelude.Int.{ℤ, pos, negsuc}
use flexetl.Prelude.Words.{Bytes}
use flexetl.Result.{
  Result, Error, Reader, ok, throws, fault, out_of_fuel, pure, raise, crash, spent, require, fread,
  fread_word, for_rounds, ◌>>=◌, ◌>>◌, not_an_array, open_failed, bad_length, unknown_type,
  read_type_failed, read_string_length_failed, read_string_failed, read_array_length_failed,
  read_value_failed, read_key_failed, read_mask_failed, invalid_key, invalid_mask,
  read_column_count_failed, read_row_count_failed, read_name_size_failed, read_name_failed,
}
use flexetl.StdMap.{Map, find, update, or_default}
use flexetl.ClickTbl.Value.{
  Value, Values, ClickType, unknown, str, int, uint, double, array, bool, nil, emplace_back,
}
use flexetl.ClickTbl.Column
use flexetl.ClickTbl.Column.{ClickColumn}
use flexetl.ClickTbl.Table.{ClickTable, flush_tbl}
use flexetl.ClickTbl.Int32.{int32, rounds, size_of_int}
use flexetl.ClickTbl.Save.{file_key, file_mask}

-- The type that a stored number stands for.
unfoldable pub type_of_code : ℕ → Option ClickType
type_of_code zero = some ClickType.unknown
type_of_code (suc zero) = some ClickType.str
type_of_code (suc (suc zero)) = some ClickType.int
type_of_code (suc (suc (suc zero))) = some ClickType.uint
type_of_code (suc (suc (suc (suc zero)))) = some ClickType.double
type_of_code (suc (suc (suc (suc (suc zero))))) = some ClickType.array
type_of_code (suc (suc (suc (suc (suc (suc zero)))))) = some ClickType.bool
type_of_code _ = none

-- What `std::string(const char *)` takes: the bytes before the first zero.
unfoldable pub c_string : Bytes → Bytes
c_string [] = []
c_string (b ∷ bs) = let rest = c_string bs in if b == 0 then [] else b ∷ rest

-- `fread(buffer.reserve(size + 1), 1, size, fl)`, `buffer[size] = 0` and the text in the buffer.
-- A negative size reads past the buffer, and `size + 1` overflows at the largest `int`.
unfoldable pub restore_sized : ℤ → Error → Reader Bytes
restore_sized (pos n) no_text =
    if n == 2 ^ 31 - 1 then crash else (do s ← fread n no_text; pure (c_string s))
restore_sized (negsuc n) no_text = crash

-- A size and a text of that size.
unfoldable pub restore_text : Error → Error → Reader Bytes
restore_text no_size no_text = do w ← fread_word 4 no_size; restore_sized (int32 w) no_text

-- `value._vector->emplace_back(...)`, behind the check of the type of `value`.
unfoldable pub push : Value → Value → Reader Value
push (array vs) v = pure (array (emplace_back vs v))
push _ v = raise not_an_array

-- The byte of a `bool`; no other value can be read as one.
unfoldable pub bool_of : ℕ → Reader Bool
bool_of zero = pure false
bool_of (suc zero) = pure true
bool_of _ = crash

-- The cases of `restoreValue`; `restore` is its call for the items of an array.
unfoldable pub restore_as : Option ClickType → (Value → Reader Value) → Value → Reader Value
restore_as (some ClickType.unknown) restore value = push value unknown
restore_as (some ClickType.str) restore value = do
  s ← restore_text read_string_length_failed read_string_failed
  push value (str s)
restore_as (some ClickType.int) restore value = do
  n ← fread_word 8 read_value_failed
  push value (int n)
restore_as (some ClickType.uint) restore value = do
  n ← fread_word 8 read_value_failed
  push value (uint n)
restore_as (some ClickType.double) restore value = do
  n ← fread_word 8 read_value_failed
  push value (double n)
restore_as (some ClickType.array) restore value = do
  w ← fread_word 4 read_array_length_failed
  val ← for_rounds (rounds (int32 w)) restore (array nil)
  push value val
restore_as (some ClickType.bool) restore value = do
  n ← fread_word 1 read_value_failed
  b ← bool_of n
  push value (bool b)
restore_as none restore value = raise unknown_type

abbrev pub is_array : Value → Bool
is_array (array vs) = true
is_array _ = false

-- `restoreValue`. A call of depth `fuel` is made for an array inside so many others.
unfoldable pub restore_value : ℕ → Value → Reader Value
restore_value zero value = spent
restore_value (suc fuel) value = do
  require (is_array value) not_an_array
  code ← fread_word 4 read_type_failed
  restore_as (type_of_code code) (restore_value fuel) value

abbrev vector : Value → Values
vector (array vs) = vs
vector _ = nil

-- `el._data._vector->reserve(rowCount)` throws on a negative count.
unfoldable pub reserve : ℤ → Reader (Unit {0})
reserve (pos n) = pure tt
reserve (negsuc n) = raise bad_length

-- One round of the loop over the columns.
unfoldable pub load_column : ℕ → ℤ → Map ClickColumn → Reader (Map ClickColumn)
load_column fuel row_count m = do
  name ← restore_text read_name_size_failed read_name_failed
  reserve row_count
  let el = or_default Column.empty (find name m)
  col ← for_rounds (rounds row_count) (restore_value fuel) (array el.cells)
  pure (update Column.empty name (λ _. record { cells = vector col }) m)

-- The body of the `try` in `ClickTable::load`.
unfoldable pub load_table : ℕ → ClickTable → Reader ClickTable
load_table fuel t = do
  key ← fread_word 4 read_key_failed
  mask ← fread_word 4 read_mask_failed
  require (key == file_key) invalid_key
  require (mask == file_mask) invalid_mask
  column_count ← fread_word 4 read_column_count_failed
  row_count ← fread_word 4 read_row_count_failed
  m ← for_rounds (rounds (int32 column_count)) (load_column fuel (int32 row_count)) t.tbl
  pure (record { tbl = m; row_count = size_of_int (int32 row_count) })

-- The `catch`: the table is emptied and the exception goes on to the caller.
unfoldable pub recover : ClickTable → Result (ClickTable × Bytes) → ClickTable × Result (Unit {0})
recover t (ok (t', rest)) = (t', ok tt)
recover t (throws e) = (flush_tbl t, throws e)
recover t fault = (t, fault)
recover t out_of_fuel = (t, out_of_fuel)

-- `ClickTable::load` of a file's bytes, `none` where `fopen` fails: the table after the call, and
-- whether it threw. Arrays cannot be nested deeper than the file is long.
unfoldable pub load : Option Bytes → ClickTable → ClickTable × Result (Unit {0})
load none t = (t, throws open_failed)
load (some bs) t = recover t (load_table (length bs + 1) t bs)
