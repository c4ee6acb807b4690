-- ===== src/ClickTbl/Save.antt =====
-- src/flexetl/clicktbl.cpp: `storeValue` and `ClickTable::save`. The `default` case of the switch
-- is dead, since each enumerator has its own, and so is the `catch` around the columns.
use flexetl.Prelude.{ℕ, Option, none, some, [], ◌∷◌, length, take, Bool, true, false}
use flexetl.Prelude.Int.{pos, negsuc}
use flexetl.Prelude.Words.{Bytes}
use flexetl.Result
use flexetl.Result.{Result, ok, throws, fault, open_failed}
use flexetl.StdMap.{Map}
use flexetl.ClickTbl.Value.{
  Value, Values, ClickType, type_code, type_of, unknown, str, int, uint, double, array, bool, nil,
  cons, size,
}
use flexetl.ClickTbl.Column.{ClickColumn}
use flexetl.ClickTbl.Table.{ClickTable}
use flexetl.ClickTbl.Int32.{int32}
use flexetl.ClickTbl.Stream.{Stream, fwrite, fwrite_int, fwrite_word}

-- `file_key` is ".cdb" in memory.
abbrev pub file_key : ℕ
file_key = 0x6264632e

abbrev pub file_mask : ℕ
file_mask = 0

-- `int size = s.size(); fwrite(&size, ...); fwrite(s.c_str(), 1, size, fl)`. A negative size
-- becomes a `size_t` past the end of the string.
unfoldable pub store_text : Bytes → Stream → Result Stream
store_text s fl = elim (int32 (length s)) [
  | pos n ↦ ok (fwrite (take n s) (fwrite_int (length s) fl))
  | negsuc n ↦ fault
]

abbrev pub bool_byte : Bool → ℕ
bool_byte true = 1
bool_byte false = 0

unfoldable mutual
  unfolding type_code type_of

  pub store_value : Value → Stream → Result Stream
  store_value unknown fl = ok (fwrite_int (type_code ClickType.unknown) fl)
  store_value (str s) fl = store_text s (fwrite_int (type_code ClickType.str) fl)
  store_value (int n) fl = ok (fwrite_word n (fwrite_int (type_code ClickType.int) fl))
  store_value (uint n) fl = ok (fwrite_word n (fwrite_int (type_code ClickType.uint) fl))
  store_value (double n) fl = ok (fwrite_word n (fwrite_int (type_code ClickType.double) fl))
  store_value (array vs) fl =
      store_values vs (fwrite_int (size vs) (fwrite_int (type_code ClickType.array) fl))
  store_value (bool b) fl =
      ok (fwrite (bool_byte b ∷ []) (fwrite_int (type_code ClickType.bool) fl))

  pub store_values : Values → Stream → Result Stream
  store_values nil fl = ok fl
  store_values (cons v vs) fl = Result.bind (store_value v fl) (store_values vs)

-- The loop over the columns: each name, then each value.
unfoldable pub save_columns : Map ClickColumn → Stream → Result Stream
save_columns [] fl = ok fl
save_columns ((name, c) ∷ m) fl =
    Result.bind (store_text name fl) λ fl'. Result.bind (store_values c.cells fl') (save_columns m)

-- `ClickTable::save`, from what `fopen` returned.
unfoldable pub save : Option Stream → ClickTable → Result Stream
save none t = throws open_failed
save (some fl) t =
    let header = fwrite_int file_mask (fwrite_int file_key fl) in
    save_columns t.tbl (fwrite_int t.row_count (fwrite_int (length t.tbl) header))
