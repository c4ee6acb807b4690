-- ===== src/Click2Db/Convert.antt =====
-- src/flexetl/click2db.cpp: `column2ClickColumn`. The columns are those of the client library
-- (contrib/clickhouse-cpp), which stands here as a record of the operations that are called.
pub mod Size
pub mod Fuel
pub mod Safe
mod Tests
use flexetl.Prelude.{ℕ, zero, suc, ◌+◌, ◌%◌, ◌^◌, ◌<◌, ◌≡◌, Bool, Option, none, some}
use flexetl.Prelude.Words.{Bytes}
use flexetl.Result.{
  Result, ok, throws, fault, out_of_fuel, convert_to_enum_failed, unsupported_type, client_failed,
}
use flexetl.ClickTbl.Value.{Value, Values, str, int, uint, nil, cons}
use flexetl.ClickTbl.Load.{c_string}
use flexetl.ClickTbl.Getters.{
  Platform, get_string, get_date_time, get_date, get_double, get_float, get_uint128, get_uint64,
  get_int64, get_uint32, get_int32, get_uint16, get_int16, get_uint8, get_int8, is_null,
}

-- `clickhouse::Type::Code`: the types without a type inside, the two with one, and those that the
-- switch has no case for.
pub data Terminal : Type 0 where
  int8 int16 int32 int64 int128 uint8 uint16 uint32 ipv4 uint64 float32 float64 string fixed_string
        date_time date enum8 enum16 decimal32 decimal64 decimal128 ipv6 uuid :
      Terminal

pub data Code : Type 0 where
  terminal : Terminal → Code
  array nullable unsupported : Code

-- The argument of `Append`, by the type it has in the call; a number is its bit pattern.
pub data Cell : Type 0 where
  int8 int16 int32 int64 uint8 uint16 uint32 uint64 float32 float64 time : ℕ → Cell
  text : Bytes → Cell
  uint128 : ℕ × ℕ → Cell

-- `create` is `CreateColumnByType`, `none` for a null pointer; `append` and `append_array` are
-- `Append` and `AppendAsColumn`, `none` if they throw; `item_type` is the name of an array's item
-- type; `nested` is `Nested()`, and `set_nested` what a change of that shared column makes of this
-- one; `append_null` is `Append` of a nullable column. `depth` is how deep the type is nested.
pub record Client (Column : Type 0) : Type 0 where
  pub create : Bytes → Option Column
  pub code : Column → Code
  pub size : Column → ℕ
  pub depth : Column → ℕ
  pub append : Cell → Column → Option Column
  pub item_type : Column → Bytes
  pub append_array : Column → Column → Option Column
  pub nested : Column → Column
  pub set_nested : Column → Column → Column
  pub append_null : Bool → Column → Column

-- `*_vector`
unfoldable pub vector_of : Value → Option Values
vector_of (Value.array vs) = some vs
vector_of _ = none

module _ (p : Platform) where
  -- The numbers of an enumeration are cut to its width.
  unfoldable pub enum_cell : ℕ → (ℕ → Cell) → Value → Option Cell
  enum_cell w cell (uint n) = some (cell (get_uint64 p (uint n) % 2 ^ w))
  enum_cell w cell (int n) = some (cell (get_int64 p (int n) % 2 ^ w))
  enum_cell w cell (str s) = some (text (get_string p (str s)))
  enum_cell w cell _ = none

  unfoldable pub decimal_cell : Value → Cell
  decimal_cell (uint n) = uint64 (get_uint64 p (uint n))
  decimal_cell v = int64 (get_int64 p v)

  -- What is appended for a value, `none` if the conversion throws.
  unfoldable pub cell_of : Terminal → Value → Option Cell
  cell_of int8 v = some (Cell.int8 (get_int8 p v))
  cell_of int16 v = some (Cell.int16 (get_int16 p v))
  cell_of int32 v = some (Cell.int32 (get_int32 p v))
  cell_of int64 v = some (Cell.int64 (get_int64 p v))
  cell_of int128 v = some (Cell.int64 (get_int64 p v))
  cell_of uint8 v = some (Cell.uint8 (get_uint8 p v))
  cell_of uint16 v = some (Cell.uint16 (get_uint16 p v))
  cell_of uint32 v = some (Cell.uint32 (get_uint32 p v))
  cell_of ipv4 v = some (Cell.uint32 (p.address (c_string (get_string p v))))
  cell_of uint64 v = some (Cell.uint64 (get_uint64 p v))
  cell_of float32 v = some (Cell.float32 (get_float p v))
  cell_of float64 v = some (Cell.float64 (get_double p v))
  cell_of string v = some (text (get_string p v))
  cell_of fixed_string v = some (text (get_string p v))
  cell_of date_time v = some (time (get_date_time p v))
  cell_of date v = some (time (get_date p v))
  cell_of enum8 v = enum_cell 8 Cell.int8 v
  cell_of enum16 v = enum_cell 16 Cell.int16 v
  cell_of decimal32 v = some (decimal_cell v)
  cell_of decimal64 v = some (decimal_cell v)
  cell_of decimal128 v = some (decimal_cell v)
  cell_of ipv6 v = some (text (get_string p v))
  cell_of uuid v = some (uint128 (get_uint128 p v))

module _ {Column : Type 0} (p : Platform) (client : Client Column) where
  -- The loop of a case for a terminal type.
  unfoldable pub append_cells : Terminal → Values → Column → Result Column
  append_cells t nil column = ok column
  append_cells t (cons v vs) column = elim (cell_of p t v) [
    | none ↦ throws convert_to_enum_failed
    | some cell ↦ elim (client.append cell column) [
      | none ↦ throws client_failed
      | some column' ↦ append_cells t vs column'
    ]
  ]

  unfoldable pub append_nulls : Values → Column → Column
  append_nulls nil column = column
  append_nulls (cons v vs) column = append_nulls vs (client.append_null (is_null v) column)

  -- The loop of `Array`: each value becomes a column of its own, by `fill`. The type of a null
  -- column is asked for.
  unfoldable pub append_arrays :
      (Value → Column → Result Column) → Bytes → Values → Column → Result Column
  append_arrays fill name nil column = ok column
  append_arrays fill name (cons v vs) column = elim (client.create name) [
    | none ↦ fault
    | some item ↦ elim (fill v item) [
      | ok filled ↦ elim (client.append_array filled column) [
        | none ↦ throws client_failed
        | some column' ↦ append_arrays fill name vs column'
      ]
      | throws e ↦ throws e
      | fault ↦ fault
      | out_of_fuel ↦ out_of_fuel
    ]
  ]

  -- The flags of a nullable column, when its nested column is filled.
  unfoldable pub append_flags : Value → Column → Result Column → Result Column
  append_flags v column (ok inner) = elim (vector_of v) [
    | none ↦ fault
    | some vs ↦ ok (append_nulls vs (client.set_nested inner column))
  ]
  append_flags v column (throws e) = throws e
  append_flags v column fault = fault
  append_flags v column out_of_fuel = out_of_fuel

  -- The switch. A value that is not an array has no vector: what `_vector` points to is undefined.
  unfoldable pub convert_as :
      (Value → Column → Result Column) → Code → Value → Column → Result Column
  convert_as fill (terminal t) v column = elim (vector_of v) [
    | none ↦ fault
    | some vs ↦ append_cells t vs column
  ]
  convert_as fill array v column = elim (vector_of v) [
    | none ↦ fault
    | some vs ↦ append_arrays fill (client.item_type column) vs column
  ]
  convert_as fill nullable v column = append_flags v column (fill v (client.nested column))
  convert_as fill unsupported v column = throws unsupported_type

  unfoldable pub convert_in : ℕ → Value → Column → Result Column
  convert_in zero v column = out_of_fuel
  convert_in (suc f) v column = convert_as (convert_in f) (client.code column) v column

  -- `column2ClickColumn`: each call of itself is on a column of a type less deep.
  unfoldable pub column_to_click_column : Value → Column → Result Column
  column_to_click_column v column = convert_in (suc (client.depth column)) v column
