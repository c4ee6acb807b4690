-- ===== src/Json2Click/Line/Verdict.antt =====
-- Whether a line is good does not depend on the table.
use flexetl.Prelude.{
  ℕ, ◌+◌, ◌≡◌, refl, ap, sym, ◌∙◌, Bool, false, List, [], ◌∷◌, Option, none, some, arith, inl, inr,
  Bool-cases, if◌then◌else◌,
}
use flexetl.Prelude.Words.{Bytes}
use flexetl.ClickTbl.Value.{Value, array, nil}
use flexetl.ClickTbl.Table
use flexetl.ClickTbl.Table.{ClickTable, Fields, append_all}
use flexetl.ClickTbl.Load.{c_string}
use flexetl.Json2Click.Event.{
  Event, scalar, start_object, end_object, start_array, end_array, key, raw_number, value_of,
}
use flexetl.Json2Click.Handler.{
  MyHandler, Outcome, running, thrown, init, is_one, is_empty, append, clear_array, on_event, feed,
}
use flexetl.Json2Click.Line.Atomic.{table_of, feed-append_all}
use flexetl.Json2Click.Line.{Parsed, end_line, process_line}

abbrev without_table : MyHandler → MyHandler
without_table h = record h { table = Table.empty }

-- All of an outcome but the table.
abbrev strip : Outcome → Option MyHandler
strip (running h) = some (without_table h)
strip (thrown t) = none

append-strip : (v : Value) (h : MyHandler) → strip (append v h) ≡ strip (append v (without_table h))
unfolding append
append-strip v h = elim (Bool-cases (is_one h.object_counter)) [
  | inr e ↦ rw e refl
  | inl one ↦ rw one (elim (Bool-cases h.fill_array) [
    | inl e ↦ rw e refl
    | inr f ↦ rw f (elim (Bool-cases (is_empty h.key)) [ inl e ↦ rw e refl | inr n ↦ rw n refl ])
  ])
]

clear_array-strip :
    (o o' : Outcome) → strip o ≡ strip o' → strip (clear_array o) ≡ strip (clear_array o')
unfolding clear_array
clear_array-strip (running h) (running h') e =
    ap
      (λ (o : Option MyHandler). elim o [
        | none ↦ none
        | some g ↦ some (record g { array_data = nil })
      ])
      e
clear_array-strip (running h) (thrown t) e = cc
clear_array-strip (thrown t) (running h) e = cc
clear_array-strip (thrown t) (thrown t') e = refl

on_event-strip :
    (e : Event) (h : MyHandler) → strip (on_event e h) ≡ strip (on_event e (without_table h))
unfolding on_event
on_event-strip start_object h = refl
on_event-strip end_object h = refl
on_event-strip start_array h = refl
on_event-strip end_array h =
    clear_array-strip _ _ (append-strip (array h.array_data) (record h { fill_array = false }))
on_event-strip (raw_number s) h = refl
on_event-strip (key s) h = ground arith
on_event-strip (scalar s) h = append-strip (value_of s) h

feed-strip :
    (es : List Event) (o o' : Outcome) → strip o ≡ strip o' → strip (feed es o) ≡ strip (feed es o')
unfolding feed
feed-strip [] o o' p = p
feed-strip (e ∷ es) (running h) (running h') p = feed-strip es (on_event e h) (on_event e h') (
    on_event-strip e h
    ∙ ap (λ g. elim g [ none ↦ none | some x ↦ strip (on_event e x) ]) p
    ∙ sym (on_event-strip e h'))
feed-strip (e ∷ es) (running h) (thrown t) p = cc
feed-strip (e ∷ es) (thrown t) (running h) p = cc
feed-strip (e ∷ es) (thrown t) (thrown t') p = refl

-- The verdict on a line, as a function of the line.
unfoldable pub is_good : (Bytes → Parsed) → Bytes → Bool
is_good parse line = (process_line parse line Table.empty).1

end_line-strip :
    (error : Option ℕ) (o o' : Outcome)
    → strip o ≡ strip o'
    → (end_line error o).1 ≡ (end_line error o').1
unfolding end_line
end_line-strip none (running h) (running h') p = refl
end_line-strip none (running h) (thrown t) p = cc
end_line-strip none (thrown t) (running h) p = cc
end_line-strip none (thrown t) (thrown t') p = refl
end_line-strip (some n) (running h) (running h') p = refl
end_line-strip (some n) (running h) (thrown t) p = refl
end_line-strip (some n) (thrown t) (running h) p = refl
end_line-strip (some n) (thrown t) (thrown t') p = refl

pub process_line-is_good :
    (parse : Bytes → Parsed) (line : Bytes) (t : ClickTable)
    → (process_line parse line t).1 ≡ is_good parse line
unfolding is_good process_line
process_line-is_good parse line t = end_line-strip (parse (c_string line)).error _ _ (
    feed-strip (parse (c_string line)).callbacks (running (init t)) (running (init Table.empty))
      refl)

append_all-row_count : (fs : Fields) (t : ClickTable) → (append_all fs t).row_count ≡ t.row_count
unfolding append_all Table.append
append_all-row_count [] t = refl
append_all-row_count ((k, v) ∷ fs) t = append_all-row_count fs (Table.append k v t)

end_line-row_count :
    (error : Option ℕ) (o : Outcome) (n : ℕ)
    → (table_of o).row_count ≡ n
    → let (t, good) = end_line error o in t.row_count ≡ (if good then n + 1 else n)
unfolding end_line Table.finish_append
end_line-row_count none (running h) n p = omega arith
end_line-row_count (some k) (running h) n p = p
end_line-row_count none (thrown t) n p = p
end_line-row_count (some k) (thrown t) n p = p

pub process_line-row_count :
    (parse : Bytes → Parsed) (line : Bytes) (t : ClickTable)
    → (process_line parse line t).0.row_count
      ≡ (if is_good parse line then t.row_count + 1 else t.row_count)
unfolding process_line
process_line-row_count parse line t =
    let parsed = parse (c_string line) in
    let o = feed parsed.callbacks (running (init t)) in
    let (fs, e) =
      feed-append_all parsed.callbacks [] t (running (init t)) (unfold append_all in refl) in
    rw (← process_line-is_good parse line t) (
      end_line-row_count parsed.error o t.row_count
        (ap (λ (u : ClickTable). u.row_count) e ∙ append_all-row_count fs t))
