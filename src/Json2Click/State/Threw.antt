-- ===== src/Json2Click/State/Threw.antt =====
-- When `save` throws.
use flexetl.Prelude.{◌≡◌, refl, Bool, true, false, not, [], ◌∷◌, Option, none, some, length, take}
use flexetl.Prelude.Words.{Bytes}
use flexetl.Result
use flexetl.Result.{Result, ok, throws, fault, out_of_fuel}
use flexetl.StdMap.{Map}
use flexetl.ClickTbl.Value.{Value, Values, unknown, str, int, uint, double, array, bool, nil, cons}
use flexetl.ClickTbl.Column.{ClickColumn}
use flexetl.ClickTbl.Table.{ClickTable}
use flexetl.ClickTbl.Stream.{Stream, fwrite, fwrite_int}
use flexetl.ClickTbl.Int32.{int32}
use flexetl.Prelude.Int.{ℤ, pos, negsuc}
use flexetl.ClickTbl.Save.{store_text, store_value, store_values, save_columns, save}
use flexetl.Json2Click.State.{threw}

-- A file is saved unless it cannot be opened.
abbrev pub is_some : Option Stream → Bool
is_some none = false
is_some (some fl) = true

bind-threw :
    (r : Result Stream) (f : Stream → Result Stream)
    → threw r ≡ false
    → ((fl : Stream) → threw (f fl) ≡ false)
    → threw (Result.bind r f) ≡ false
bind-threw (ok fl) f h k = k fl
bind-threw (throws e) f h k = absurd cc
bind-threw fault f h k = refl
bind-threw out_of_fuel f h k = refl

store_text-threw : (s : Bytes) (fl : Stream) → threw (store_text s fl) ≡ false
unfolding store_text
store_text-threw s fl = go (int32 (length s))
  where
    go :
        (z : ℤ)
        → threw (elim z [
          | pos n ↦ ok (fwrite (take n s) (fwrite_int (length s) fl))
          | negsuc n ↦ fault
        ])
          ≡ false
    go (pos n) = refl
    go (negsuc n) = refl

mutual
  unfolding store_value

  store_value-threw : (v : Value) (fl : Stream) → threw (store_value v fl) ≡ false
  store_value-threw unknown fl = refl
  store_value-threw (str s) fl = store_text-threw s _
  store_value-threw (int n) fl = refl
  store_value-threw (uint n) fl = refl
  store_value-threw (double n) fl = refl
  store_value-threw (array vs) fl = store_values-threw vs _
  store_value-threw (bool b) fl = refl

  store_values-threw : (vs : Values) (fl : Stream) → threw (store_values vs fl) ≡ false
  store_values-threw nil fl = refl
  store_values-threw (cons v vs) fl =
      bind-threw (store_value v fl) (store_values vs) (store_value-threw v fl)
        (store_values-threw vs)

save_columns-threw : (m : Map ClickColumn) (fl : Stream) → threw (save_columns m fl) ≡ false
unfolding save_columns
save_columns-threw [] fl = refl
save_columns-threw ((name, c) ∷ m) fl =
    bind-threw (store_text name fl) _ (store_text-threw name fl) (λ fl'.
      bind-threw (store_values c.cells fl') (save_columns m) (store_values-threw c.cells fl')
        (save_columns-threw m))

-- `save` throws exactly if the file cannot be opened.
pub save-threw : (fl : Option Stream) (t : ClickTable) → threw (save fl t) ≡ not (is_some fl)
unfolding save
save-threw none t = refl
save-threw (some fl) t = save_columns-threw t.tbl _
