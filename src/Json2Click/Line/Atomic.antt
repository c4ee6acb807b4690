-- ===== src/Json2Click/Line/Atomic.antt =====
-- A line is all or nothing, whatever the reader reports of it.
use flexetl.Prelude.{
  ℕ, ◌+◌, ◌≡◌, refl, ap, ◌∙◌, ◌⊎◌, inl, inr, Bool, true, false, List, [], ◌∷◌, ◌++◌, Option, none,
  some, arith, if◌then◌else◌, Bool-cases, ◌&&◌, ◌==◌,
}
use flexetl.Prelude.Words.{Bytes}
use flexetl.ClickTbl.Value.{Value, array}
use flexetl.ClickTbl.Table
use flexetl.ClickTbl.Table.{ClickTable, Fields, append_all}
use flexetl.ClickTbl.Table.Aligned.{IsAligned}
use flexetl.ClickTbl.Table.Rows.{
  cell, last_value, or_null, finish_append-append_all, finish_append_rollback,
}
use flexetl.ClickTbl.Load.{c_string}
use flexetl.Json2Click.Event.{
  Event, scalar, start_object, end_object, start_array, end_array, key, raw_number, value_of,
}
use flexetl.Json2Click.Handler.{
  MyHandler, Outcome, running, thrown, init, is_one, is_empty, append, clear_array, on_event, feed,
}
use flexetl.Json2Click.Line.{Parsed, end_line, process_line}

abbrev pub table_of : Outcome → ClickTable
table_of (running h) = h.table
table_of (thrown t) = t

-- The table is as before, or has had one more `append`.
abbrev Extends : ClickTable → ClickTable → Type 0
Extends t t' = (t' ≡ t) ⊎ ((k : Bytes) × (v : Value) × (t' ≡ Table.append k v t))

append-Extends : (v : Value) (h : MyHandler) → Extends h.table (table_of (append v h))
unfolding append
append-Extends v h = elim (Bool-cases (is_one h.object_counter)) [
  | inr e ↦ inl (ground arith)
  | inl one ↦ elim (Bool-cases h.fill_array) [
    | inl e ↦ inl (ground arith)
    | inr scalar_value ↦ elim (Bool-cases (is_empty h.key)) [
      | inl e ↦ inl (ground arith)
      | inr named ↦ inr (h.key, v, ground arith)
    ]
  ]
]

clear_array-table : (o : Outcome) → table_of (clear_array o) ≡ table_of o
unfolding clear_array
clear_array-table (running h) = refl
clear_array-table (thrown t) = refl

on_event-Extends : (e : Event) (h : MyHandler) → Extends h.table (table_of (on_event e h))
unfolding on_event
on_event-Extends start_object h = inl refl
on_event-Extends end_object h = inl refl
on_event-Extends start_array h = inl refl
on_event-Extends end_array h =
    rw (clear_array-table (append (array h.array_data) (record h { fill_array = false })))
      (append-Extends (array h.array_data) (record h { fill_array = false }))
on_event-Extends (raw_number s) h = inl refl
on_event-Extends (key s) h = inl (ground arith)
on_event-Extends (scalar s) h = append-Extends (value_of s) h

append_all-snoc :
    (fs : Fields) (k : Bytes) (v : Value) (t : ClickTable)
    → Table.append k v (append_all fs t) ≡ append_all (fs ++ (k, v) ∷ []) t
unfolding append_all
append_all-snoc [] k v t = refl
append_all-snoc ((j, w) ∷ fs) k v t = append_all-snoc fs k v (Table.append j w t)

-- All that the callbacks of a line do to the table is a run of `append`.
pub feed-append_all :
    (es : List Event) (fs : Fields) (t : ClickTable) (o : Outcome)
    → table_of o ≡ append_all fs t
    → (gs : Fields) × (table_of (feed es o) ≡ append_all gs t)
unfolding feed
feed-append_all [] fs t o h = (fs, h)
feed-append_all (e ∷ es) fs t (thrown u) h = (fs, h)
feed-append_all (e ∷ es) fs t (running h) p = elim (on_event-Extends e h) [
  | inl q ↦ feed-append_all es fs t (on_event e h) (q ∙ p)
  | inr (k, v, q) ↦
      feed-append_all es (fs ++ (k, v) ∷ []) t (on_event e h)
        (q ∙ ap (Table.append k v) p ∙ append_all-snoc fs k v t)
]

-- What a line may do to a table of rows: a good line adds one row, which holds the last value of
-- each column that the line assigned and nulls elsewhere; a bad line changes no row.
abbrev pub AddsRow : ClickTable → ClickTable × Bool → Type 0
AddsRow t (t', good) =
    (fs : Fields) × IsAligned t'
    × (t'.row_count ≡ (if good then t.row_count + 1 else t.row_count))
    × ((k : Bytes) (i : ℕ)
        → cell t' k i
          ≡ (if good && i == t.row_count then or_null (last_value k fs) else cell t k i))

good-AddsRow :
    (h : ClickTable) (fs : Fields) (t : ClickTable)
    → IsAligned t
    → h ≡ append_all fs t
    → AddsRow t (Table.finish_append true h, true)
good-AddsRow h fs t a p =
    let (aligned, count, cells) = finish_append-append_all fs t a in
    (fs, rw p aligned, rw p count, rw p cells)

bad-AddsRow :
    (h : ClickTable) (fs : Fields) (t : ClickTable)
    → IsAligned t
    → h ≡ append_all fs t
    → AddsRow t (Table.finish_append false h, false)
bad-AddsRow h fs t a p =
    let (aligned, count, cells) = finish_append_rollback fs t a in
    (fs, rw p aligned, rw p count, rw p cells)

end_line-AddsRow :
    (error : Option ℕ) (o : Outcome) (fs : Fields) (t : ClickTable)
    → IsAligned t
    → table_of o ≡ append_all fs t
    → AddsRow t (end_line error o)
unfolding end_line
end_line-AddsRow none (running h) fs t a p = good-AddsRow h.table fs t a p
end_line-AddsRow (some n) (running h) fs t a p = bad-AddsRow h.table fs t a p
end_line-AddsRow none (thrown u) fs t a p = bad-AddsRow u fs t a p
end_line-AddsRow (some n) (thrown u) fs t a p = bad-AddsRow u fs t a p

-- Whatever the reader reports of a line, in whatever order, and whether the parse fails, throws or
-- ends well: the line either counts as good and adds exactly one row to an aligned table, made of
-- what the line assigned and of nulls, or counts as bad and changes no row; the old rows stay in
-- both cases, and the table stays aligned.
pub process_line-AddsRow :
    (parse : Bytes → Parsed) (line : Bytes) (t : ClickTable)
    → IsAligned t
    → AddsRow t (process_line parse line t)
unfolding process_line append_all
process_line-AddsRow parse line t a =
    let parsed = parse (c_string line) in
    let (fs, e) = feed-append_all parsed.callbacks [] t (running (init t)) refl in
    end_line-AddsRow parsed.error (feed parsed.callbacks (running (init t))) fs t a e
