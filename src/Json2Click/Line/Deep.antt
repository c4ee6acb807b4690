-- ===== src/Json2Click/Line/Deep.antt =====
-- Below the first level of a document the callbacks collect text that nothing reads: they change
-- neither the table nor the key that is waiting for its value.
use flexetl.Prelude.{
  ℕ, suc, ◌≡◌, refl, ap, sym, ◌∙◌, true, false, List, [], ◌∷◌, ◌++◌, arith, if◌then◌else◌, lt→ltb,
  ne→==,
}
use flexetl.Prelude.Int.{ℤ, pos, suc_ℤ, pred_ℤ}
use flexetl.Prelude.Words.{Bytes}
use flexetl.ClickTbl.Value
use flexetl.ClickTbl.Value.{Value, array}
use flexetl.Json2Click.Event.{
  Event, Scalar, Json, Items, Members, scalar, list, object, nil, cons, end, member, start_object,
  end_object, start_array, end_array, key, value_of, events, item_events, member_events,
}
use flexetl.Json2Click.Handler.{
  MyHandler, Outcome, running, thrown, is_one, is_above, append, clear_array, on_event, feed,
}

pub feed-append : (xs ys : List Event) (o : Outcome) → feed (xs ++ ys) o ≡ feed ys (feed xs o)
unfolding feed
feed-append [] ys o = refl
feed-append (x ∷ xs) ys (running h) = feed-append xs ys (on_event x h)
feed-append (x ∷ xs) [] (thrown t) = refl
feed-append (x ∷ xs) (y ∷ ys) (thrown t) = refl

-- The same table, key and depth.
pub record Keeps (h h' : MyHandler) : Type 0 where
  pub table : h'.table ≡ h.table
  pub key : h'.key ≡ h.key
  pub depth : h'.object_counter ≡ h.object_counter

abbrev pub Passes : List Event → Type 0
Passes es =
    (c : ℕ) (h : MyHandler)
    → h.object_counter ≡ pos (suc (suc c))
    → (h' : MyHandler) × (feed es (running h) ≡ running h') × Keeps h h'

Passes-nil : Passes []
unfolding feed
Passes-nil c h d = (h, refl, record { table = refl; key = refl; depth = refl })

Passes-append : (xs ys : List Event) → Passes xs → Passes ys → Passes (xs ++ ys)
Passes-append xs ys p q c h d =
    let (h₁, e₁, k₁) = p c h d in
    let (h₂, e₂, k₂) = q c h₁ (k₁.depth ∙ d) in
    (
      h₂,
      feed-append xs ys (running h) ∙ ap (feed ys) e₁ ∙ e₂,
      record { table = k₂.table ∙ k₁.table; key = k₂.key ∙ k₁.key; depth = k₂.depth ∙ k₁.depth },
    )

module _ (c : ℕ) (z : ℤ) (d : z ≡ pos (suc (suc c))) where
  is_one_deep : is_one z ≡ false
  is_one_deep = rw d (ne→== (suc (suc c)) 1 (omega arith))

  is_above_deep : is_above 1 z ≡ true
  is_above_deep = rw d (lt→ltb 1 (suc (suc c)) (omega arith))

append_deep :
    (v : Value) (c : ℕ) (h : MyHandler)
    → h.object_counter ≡ pos (suc (suc c))
    → append v h ≡ running h
unfolding append
append_deep v c h d = rw (is_one_deep c h.object_counter d)

-- An array is dropped, with what was collected before it.
end_array_deep :
    (c : ℕ) (h : MyHandler)
    → h.object_counter ≡ pos (suc (suc c))
    → on_event end_array h ≡ running (record h { fill_array = false; array_data = Value.nil })
unfolding on_event clear_array
end_array_deep c h d = rw (append_deep (array h.array_data) c (record h { fill_array = false }) d)

key_deep :
    (k : Bytes) (c : ℕ) (h : MyHandler)
    → h.object_counter ≡ pos (suc (suc c))
    → on_event (key k) h
      ≡ running (record h { object = h.object ++ b'"' ∷ (k ++ b'"' ∷ b':' ∷ []) })
unfolding on_event
key_deep k c h d = rw (is_above_deep c h.object_counter d)

-- One event that stays at its depth.
Passes-one :
    (e : Event) (f : MyHandler → MyHandler)
    → ((c : ℕ) (h : MyHandler)
        → h.object_counter ≡ pos (suc (suc c))
        → (on_event e h ≡ running (f h)) × Keeps h (f h))
    → Passes (e ∷ [])
unfolding feed
Passes-one e f on c h d = let (p, k) = on c h d in (f h, p, k)

Passes-scalar : (s : Scalar) → Passes (Event.scalar s ∷ [])
unfolding on_event
Passes-scalar s =
    Passes-one _ (λ h. h)
      λ c h d. (append_deep (value_of s) c h d, record { table = refl; key = refl; depth = refl })

Passes-key : (k : Bytes) → Passes (key k ∷ [])
Passes-key k =
    Passes-one _ (λ h. record h { object = h.object ++ b'"' ∷ (k ++ b'"' ∷ b':' ∷ []) })
      λ c h d. (key_deep k c h d, record { table = refl; key = refl; depth = refl })

Passes-start_array : Passes (start_array ∷ [])
unfolding on_event
Passes-start_array =
    Passes-one _ (λ h. record h { fill_array = true })
      λ c h d. (refl, record { table = refl; key = refl; depth = refl })

Passes-end_array : Passes (end_array ∷ [])
Passes-end_array =
    Passes-one _ (λ h. record h { fill_array = false; array_data = Value.nil })
      λ c h d. (end_array_deep c h d, record { table = refl; key = refl; depth = refl })

abbrev open_object : MyHandler → MyHandler
open_object h = record h {
  object_counter = suc_ℤ h.object_counter;
  object = if is_above 1 (suc_ℤ h.object_counter) then h.object ++ b'{' ∷ [] else h.object;
}

abbrev pub close_object : MyHandler → MyHandler
close_object h = record h {
  object_counter = pred_ℤ h.object_counter;
  object = if is_above 0 (pred_ℤ h.object_counter) then h.object ++ b'}' ∷ [] else h.object;
}

-- A nested object, below the first level or right at it.
pub object-Passes :
    (es : List Event) (c : ℕ) (h : MyHandler)
    → Passes es
    → h.object_counter ≡ pos (suc c)
    → (h' : MyHandler) × (feed (start_object ∷ (es ++ end_object ∷ [])) (running h) ≡ running h')
      × Keeps h h'
unfolding feed on_event
object-Passes es c h p d =
    let (h₁, e₁, k₁) = p c (open_object h) (ap suc_ℤ d) in
    (
      close_object h₁,
      feed-append es (end_object ∷ []) (running (open_object h)) ∙ ap (feed (end_object ∷ [])) e₁,
      record { table = k₁.table; key = k₁.key; depth = ap pred_ℤ (k₁.depth ∙ ap suc_ℤ d) ∙ sym d },
    )

mutual
  unfolding events

  events-Passes : (v : Json) → Passes (events v)
  events-Passes (scalar s) = Passes-scalar s
  events-Passes (list xs) =
      Passes-append (start_array ∷ []) _ Passes-start_array
        (Passes-append (item_events xs) _ (items-Passes xs) Passes-end_array)
  events-Passes (object ms) =
      λ c h d. object-Passes (member_events ms) (suc c) h (members-Passes ms) d

  items-Passes : (xs : Items) → Passes (item_events xs)
  items-Passes nil = Passes-nil
  items-Passes (cons x xs) = Passes-append (events x) _ (events-Passes x) (items-Passes xs)

  pub members-Passes : (ms : Members) → Passes (member_events ms)
  members-Passes end = Passes-nil
  members-Passes (member k v ms) =
      Passes-append (key k ∷ []) _ (Passes-key k)
        (Passes-append (events v) _ (events-Passes v) (members-Passes ms))
