-- ===== src/ClickTbl/Encoding.antt =====
-- The file format by itself, as a function of a table, and that `save` writes it.
pub mod Reads
pub mod Restore
pub mod Columns
use flexetl.Prelude.{
  ℕ, ◌+◌, ◌-◌, ◌%◌, ◌^◌, ◌≤◌, ◌<◌, ◌≡◌, refl, ap, sym, ◌∙◌, Option, some, [], ◌∷◌, ◌++◌, append-nil,
  append_assoc, arith, length, take, take-all, length-append, Bool, true, false,
}
use flexetl.Prelude.Int.{pos}
use flexetl.Prelude.Words.{Bytes, to_le}
use flexetl.Result
use flexetl.Result.{Result, ok}
use flexetl.StdMap.{Map}
use flexetl.ClickTbl.Value.{
  Value, Values, unknown, str, int, uint, double, array, bool, nil, cons, size,
}
use flexetl.ClickTbl.Column.{ClickColumn}
use flexetl.ClickTbl.Table.{ClickTable}
use flexetl.ClickTbl.Int32.{int32, int32_small}
use flexetl.ClickTbl.Stream.{Stream, fwrite, fwrite_int, fwrite_word, fwrite-fwrite, fwrite-nil}
use flexetl.ClickTbl.Save.{
  file_key, file_mask, bool_byte, store_text, store_value, store_values, save_columns, save,
}

abbrev pub int_bytes : ℕ → Bytes
int_bytes n = to_le 4 (n % 2 ^ 32)

-- A text is its length and its bytes.
abbrev pub encode_text : Bytes → Bytes
encode_text s = int_bytes (length s) ++ s

-- A value is its type and then what the type needs.
unfoldable mutual
  pub encode : Value → Bytes
  encode unknown = int_bytes 0
  encode (str s) = int_bytes 1 ++ encode_text s
  encode (int n) = int_bytes 2 ++ to_le 8 n
  encode (uint n) = int_bytes 3 ++ to_le 8 n
  encode (double n) = int_bytes 4 ++ to_le 8 n
  encode (array vs) = int_bytes 5 ++ (int_bytes (size vs) ++ encode_all vs)
  encode (bool b) = int_bytes 6 ++ bool_byte b ∷ []

  pub encode_all : Values → Bytes
  encode_all nil = []
  encode_all (cons v vs) = encode v ++ encode_all vs

unfoldable pub encode_columns : Map ClickColumn → Bytes
unfolding encode
encode_columns [] = []
encode_columns ((name, c) ∷ m) = encode_text name ++ (encode_all c.cells ++ encode_columns m)

unfoldable pub encode_table : ClickTable → Bytes
unfolding encode_columns
encode_table t =
    int_bytes file_key
    ++ (int_bytes file_mask
        ++ (int_bytes (length t.tbl) ++ (int_bytes t.row_count ++ encode_columns t.tbl)))

-- What the format can hold: sizes that are an `int`, numbers of 64 bits.
abbrev pub FitsText : Bytes → Type 0
FitsText s = length s < 2 ^ 31 - 1

abbrev pub FitsWord : ℕ → Type 0
FitsWord n = n < 2 ^ 64

abbrev mutual
  pub Fits : Value → Type 0
  Fits unknown = Unit
  Fits (str s) = FitsText s
  Fits (int n) = FitsWord n
  Fits (uint n) = FitsWord n
  Fits (double n) = FitsWord n
  Fits (array vs) = (size vs < 2 ^ 31) × FitsAll vs
  Fits (bool b) = Unit

  pub FitsAll : Values → Type 0
  FitsAll nil = Unit
  FitsAll (cons v vs) = Fits v × FitsAll vs

abbrev pub FitsColumns : Map ClickColumn → Type 0
FitsColumns [] = Unit
FitsColumns ((name, c) ∷ m) = FitsText name × FitsAll c.cells × FitsColumns m

pub record FitsTable (t : ClickTable) : Type 0 where
  pub columns : FitsColumns t.tbl
  pub column_count : length t.tbl < 2 ^ 31
  pub row_count : t.row_count < 2 ^ 31

store_text_lem :
    (s : Bytes) (fl : Stream) → FitsText s → store_text s fl ≡ ok (fwrite (encode_text s) fl)
unfolding store_text fwrite_int
store_text_lem s fl h =
    rw (int32_small (length s) (omega arith), store_text)
      (rw (take-all (length s) s (omega arith)) (ap ok (fwrite-fwrite _ _ fl)))

mutual
  unfolding store_value encode fwrite_int fwrite_word

  store_value_lem :
      (v : Value) (fl : Stream) → Fits v → store_value v fl ≡ ok (fwrite (encode v) fl)
  store_value_lem unknown fl h = refl
  store_value_lem (str s) fl h = store_text_lem s _ h ∙ ap ok (fwrite-fwrite _ _ fl)
  store_value_lem (int n) fl h = ap ok (fwrite-fwrite _ _ fl)
  store_value_lem (uint n) fl h = ap ok (fwrite-fwrite _ _ fl)
  store_value_lem (double n) fl h = ap ok (fwrite-fwrite _ _ fl)
  store_value_lem (array vs) fl h =
      store_values_lem vs _ h.1 ∙ ap ok (simp (fwrite-fwrite, append_assoc))
  store_value_lem (bool b) fl h = ap ok (fwrite-fwrite _ _ fl)

  store_values_lem :
      (vs : Values) (fl : Stream) → FitsAll vs → store_values vs fl ≡ ok (fwrite (encode_all vs) fl)
  store_values_lem nil fl h = ap ok (sym (fwrite-nil fl))
  store_values_lem (cons v vs) fl h =
      rw (store_value_lem v fl h.0) (store_values_lem vs _ h.1 ∙ ap ok (fwrite-fwrite _ _ fl))

save_columns_lem :
    (m : Map ClickColumn) (fl : Stream)
    → FitsColumns m
    → save_columns m fl ≡ ok (fwrite (encode_columns m) fl)
unfolding save_columns encode_columns
save_columns_lem [] fl h = ap ok (sym (fwrite-nil fl))
save_columns_lem ((name, c) ∷ m) fl h = rw (store_text_lem name fl h.0) (
    rw (store_values_lem c.cells (fwrite (encode_text name) fl) h.1)
      (save_columns_lem m _ h.2 ∙ ap ok (fwrite-fwrite _ _ _ ∙ fwrite-fwrite _ _ fl)))

-- A table that fits the format is written as the format says, as far as the device has room, and
-- `save` reports success whether or not all of it was written.
pub save_lem :
    (t : ClickTable) (fl : Stream)
    → FitsTable t
    → save (some fl) t ≡ ok (fwrite (encode_table t) fl)
unfolding save encode_table fwrite_int
save_lem t fl h = save_columns_lem t.tbl _ h.columns ∙ ap ok (simp (fwrite-fwrite, append_assoc))
