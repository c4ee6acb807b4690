-- ===== src/Json2Click/Handler.antt =====
-- src/flexetl/json2click.cpp: `MyHandler`. Each callback returns true unless it throws; a throw
-- leaves the table as the calls before it made it.
use flexetl.Prelude.{ℕ, Bool, true, false, List, [], ◌∷◌, ◌++◌, ltb, ◌==◌, if◌then◌else◌}
use flexetl.Prelude.Int.{ℤ, pos, negsuc, suc_ℤ, pred_ℤ}
use flexetl.Prelude.Words.{Bytes}
use flexetl.ClickTbl.Value.{Value, Values, array, nil, emplace_back}
use flexetl.ClickTbl.Table
use flexetl.ClickTbl.Table.{ClickTable}
use flexetl.Json2Click.Event.{
  Event, scalar, start_object, end_object, start_array, end_array, key, raw_number, value_of,
}

pub record MyHandler : Type 0 where
  pub key : Bytes
  pub object : Bytes
  pub object_counter : ℤ
  pub fill_array : Bool
  pub array_data : Values
  pub table : ClickTable

-- `MyHandler handler(m_table)`
abbrev pub init : ClickTable → MyHandler
init t = record {
  key = [];
  object = [];
  object_counter = pos 0;
  fill_array = false;
  array_data = nil;
  table = t;
}

pub data Outcome : Type 0 where
  running : MyHandler → Outcome
  thrown : ClickTable → Outcome

-- `m_objectCounter == 1` and `m_objectCounter > n`.
abbrev pub is_one : ℤ → Bool
is_one (pos n) = n == 1
is_one (negsuc n) = false

abbrev pub is_above : ℕ → ℤ → Bool
is_above n (pos m) = ltb n m
is_above n (negsuc m) = false

abbrev pub is_empty : Bytes → Bool
is_empty [] = true
is_empty (b ∷ s) = false

-- `append`
unfoldable pub append : Value → MyHandler → Outcome
append v h =
    if is_one h.object_counter
    then (if h.fill_array
        then running (record h { array_data = emplace_back h.array_data v })
        else (if is_empty h.key
            then thrown h.table
            else running (record h { table = Table.append h.key v h.table; key = [] })))
    else running h

-- `m_arrayData.clear()`
unfoldable pub clear_array : Outcome → Outcome
clear_array (running h) = running (record h { array_data = nil })
clear_array (thrown t) = thrown t

-- `StartObject`, `EndObject`, `StartArray`, `EndArray`, `RawNumber`, `Key` and the scalars.
unfoldable pub on_event : Event → MyHandler → Outcome
unfolding append clear_array
on_event start_object h =
    let c = suc_ℤ h.object_counter in
    running (record h {
      object_counter = c;
      object = if is_above 1 c then h.object ++ b'{' ∷ [] else h.object;
    })
on_event end_object h =
    let c = pred_ℤ h.object_counter in
    running (record h {
      object_counter = c;
      object = if is_above 0 c then h.object ++ b'}' ∷ [] else h.object;
    })
on_event start_array h = running (record h { fill_array = true })
on_event end_array h = clear_array (append (array h.array_data) (record h { fill_array = false }))
on_event (raw_number s) h = running h
on_event (key s) h =
    if is_above 1 h.object_counter
    then running (record h { object = h.object ++ b'"' ∷ (s ++ b'"' ∷ b':' ∷ []) })
    else if is_empty h.key
    then running (record h { key = s })
    else thrown h.table
on_event (scalar s) h = append (value_of s) h

-- The callbacks of one parse, up to the first that throws.
unfoldable pub feed : List Event → Outcome → Outcome
feed [] o = o
feed (e ∷ es) (running h) = feed es (on_event e h)
feed (e ∷ es) (thrown t) = thrown t
