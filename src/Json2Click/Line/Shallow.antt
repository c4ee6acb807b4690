-- ===== src/Json2Click/Line/Shallow.antt =====
-- The row that a document makes, as a function of the document.
use flexetl.Prelude.{
  ◌≡◌, refl, ap, sym, subst, ◌∙◌, Bool, true, false, List, [], ◌∷◌, ◌++◌, none, append_assoc,
}
use flexetl.Prelude.Int.{pos}
use flexetl.Prelude.Words.{Bytes}
use flexetl.ClickTbl.Value
use flexetl.ClickTbl.Value.{
  Value, Values, emplace_back, append_values, append-emplace_back, append-nil_values,
}
use flexetl.ClickTbl.Table
use flexetl.ClickTbl.Table.{ClickTable, Fields, append_all, finish_append}
use flexetl.ClickTbl.Load.{c_string}
use flexetl.Json2Click.Event.{
  Event, Items, Members, scalar, list, object, nil, cons, end, member, end_object, end_array, key,
  value_of, events, item_events, member_events,
}
use flexetl.Json2Click.Handler.{
  MyHandler, Outcome, running, thrown, is_empty, append, clear_array, on_event, feed,
}
use flexetl.Json2Click.Line.{Parsed, process_line, end_line}
use flexetl.Json2Click.Line.Deep.{close_object, feed-append, object-Passes, members-Passes}

-- The values of a list of scalars.
unfoldable pub values_of : Items → Values
values_of nil = Value.nil
values_of (cons (scalar s) xs) = Value.cons (value_of s) (values_of xs)
values_of (cons _ xs) = values_of xs

abbrev pub put : Bytes × Value → Fields × Bool → Fields × Bool
put f (fs, good) = (f ∷ fs, good)

-- The assignments that a document's members make, and whether the line is good: a nested object
-- is dropped, and the line is refused if another member follows it.
unfoldable pub row_of : Members → Fields × Bool
row_of end = ([], true)
row_of (member k (scalar s) ms) = put (k, value_of s) (row_of ms)
row_of (member k (list xs) ms) = put (k, Value.array (values_of xs)) (row_of ms)
row_of (member k (object ns) end) = ([], true)
row_of (member k (object ns) (member j v ms)) = ([], false)

abbrev IsScalars : Items → Type 0
IsScalars nil = Unit
IsScalars (cons (scalar s) xs) = IsScalars xs
IsScalars (cons _ xs) = ⊥

-- Members with names, whose lists hold scalars only. Objects may hold anything.
abbrev pub IsShallow : Members → Type 0
IsShallow end = Unit
IsShallow (member k (scalar s) ms) = (is_empty k ≡ false) × IsShallow ms
IsShallow (member k (list xs) ms) = (is_empty k ≡ false) × IsScalars xs × IsShallow ms
IsShallow (member k (object ns) ms) = (is_empty k ≡ false) × IsShallow ms

-- The handler at the first level: a key that waits (or none), and what a list has collected.
abbrev at_first : Bytes → Bytes → Bool → Values → ClickTable → MyHandler
at_first obj k filling vs t = record {
  key = k;
  object = obj;
  object_counter = pos 1;
  fill_array = filling;
  array_data = vs;
  table = t;
}

items-feed :
    (xs : Items) (obj k : Bytes) (vs : Values) (t : ClickTable)
    → IsScalars xs
    → feed (item_events xs) (running (at_first obj k true vs t))
      ≡ running (at_first obj k true (append_values vs (values_of xs)) t)
unfolding feed item_events on_event values_of
items-feed nil obj k vs t h = rw (append-nil_values vs)
items-feed (cons (scalar s) xs) obj k vs t h =
    items-feed xs obj k (emplace_back vs (value_of s)) t h
    ∙ rw (append-emplace_back vs (value_of s) (values_of xs))
items-feed (cons (list ys) xs) obj k vs t h = absurd h
items-feed (cons (object ms) xs) obj k vs t h = absurd h

list-feed :
    (xs : Items) (obj k : Bytes) (t : ClickTable)
    → IsScalars xs
    → is_empty k ≡ false
    → feed (events (list xs)) (running (at_first obj k false Value.nil t))
      ≡ running (at_first obj [] false Value.nil (Table.append k (Value.array (values_of xs)) t))
unfolding feed events on_event append_values
list-feed xs obj k t h n =
    feed-append (item_events xs) (end_array ∷ []) _
    ∙ ap (feed (end_array ∷ [])) (items-feed xs obj k Value.nil t h)
    ∙ rw n

-- How a line ends after its assignments: it goes on, or throws.
abbrev Ends : Fields × Bool → ClickTable → Outcome → Type 0
Ends (fs, true) t o = (h : MyHandler) × (o ≡ running h) × (h.table ≡ append_all fs t)
Ends (fs, false) t o = o ≡ thrown (append_all fs t)

Ends-put :
    (k : Bytes) (v : Value) (r : Fields × Bool) (t : ClickTable) (o : Outcome)
    → Ends r (Table.append k v t) o
    → Ends (put (k, v) r) t o
unfolding append_all
Ends-put k v (fs, true) t o e = e
Ends-put k v (fs, false) t o e = e

feed-thrown : (es : List Event) (t : ClickTable) → feed es (thrown t) ≡ thrown t
unfolding feed
feed-thrown [] t = refl
feed-thrown (e ∷ es) t = refl

key_refused :
    (j k : Bytes) (h : MyHandler)
    → h.object_counter ≡ pos 1
    → h.key ≡ k
    → is_empty k ≡ false
    → on_event (key j) h ≡ thrown h.table
unfolding on_event
key_refused j k h d e n = rw (d, e) (rw n)

feed-key_refused :
    (j k : Bytes) (es : List Event) (h : MyHandler)
    → h.object_counter ≡ pos 1
    → h.key ≡ k
    → is_empty k ≡ false
    → feed (key j ∷ es) (running h) ≡ thrown h.table
unfolding feed
feed-key_refused j k es h d e n = rw (key_refused j k h d e n) (feed-thrown es h.table)

-- While the key of an object still waits, the document has to end.
after_object :
    (k : Bytes) (ns ms : Members) (h : MyHandler) (t : ClickTable)
    → is_empty k ≡ false
    → h.table ≡ t
    → h.key ≡ k
    → h.object_counter ≡ pos 1
    → Ends
        (row_of (member k (object ns) ms))
        t
        (feed (member_events ms ++ end_object ∷ []) (running h))
unfolding row_of member_events append_all
after_object k ns end h t n e f d = (close_object h, (unfold feed on_event in refl), e)
after_object k ns (member j v ms) h t n e f d = feed-key_refused j k _ h d f n ∙ ap thrown e

feed-regroup :
    (xs ys zs : List Event) (o : Outcome) → feed ((xs ++ ys) ++ zs) o ≡ feed (ys ++ zs) (feed xs o)
feed-regroup xs ys zs o = rw (append_assoc xs ys zs) (feed-append xs (ys ++ zs) o)

members-Ends :
    (ms : Members) (obj : Bytes) (t : ClickTable)
    → IsShallow ms
    → Ends
        (row_of ms)
        t
        (feed (member_events ms ++ end_object ∷ []) (running (at_first obj [] false Value.nil t)))
unfolding feed row_of events on_event append_all append clear_array
members-Ends end obj t h = (_, refl, refl)
members-Ends (member k (scalar s) ms) obj t h =
    rw h.0 (Ends-put k (value_of s) (row_of ms) t _ (members-Ends ms obj _ h.1))
members-Ends (member k (list xs) ms) obj t h =
    subst (Ends (row_of (member k (list xs) ms)) t)
      (sym (
        feed-regroup (events (list xs)) (member_events ms) (end_object ∷ [])
          (running (at_first obj k false Value.nil t))
        ∙ ap (feed (member_events ms ++ end_object ∷ [])) (list-feed xs obj k t h.1 h.0)))
      (Ends-put k (Value.array (values_of xs)) (row_of ms) t _ (members-Ends ms obj _ h.2))
members-Ends (member k (object ns) ms) obj t h =
    let (h', e, keeps) =
      object-Passes (member_events ns) 0 (at_first obj k false Value.nil t) (members-Passes ns)
        refl in
    subst (Ends (row_of (member k (object ns) ms)) t)
      (sym (
        feed-regroup (events (object ns)) (member_events ms) (end_object ∷ [])
          (running (at_first obj k false Value.nil t))
        ∙ ap (feed (member_events ms ++ end_object ∷ [])) e))
      (after_object k ns ms h' t h.0 keeps.table keeps.key keeps.depth)

end_line-Ends :
    (r : Fields × Bool) (t : ClickTable) (o : Outcome)
    → Ends r t o
    → end_line none o ≡ (finish_append r.1 (append_all r.0 t), r.1)
unfolding end_line
end_line-Ends (fs, true) t o (h, e, p) = rw (e, p)
end_line-Ends (fs, false) t o e = rw e

-- A line that holds one object whose members have names, and whose lists hold scalars: each member
-- up to the first nested object is assigned, in order; if the document ends there, the line is
-- good and the object is left out of its row; if another member follows a nested object, the line
-- is bad, and the assignments before it are taken back.
pub process_line-row_of :
    (parse : Bytes → Parsed) (line : Bytes) (ms : Members) (t : ClickTable)
    → parse (c_string line) ≡ record { callbacks = events (object ms); error = none }
    → IsShallow ms
    → process_line parse line t
      ≡ (finish_append (row_of ms).1 (append_all (row_of ms).0 t), (row_of ms).1)
unfolding process_line
process_line-row_of parse line ms t p h =
    rw p (end_line-Ends (row_of ms) t _ (unfold events feed on_event in members-Ends ms [] t h))
