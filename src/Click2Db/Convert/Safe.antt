-- ===== src/Click2Db/Convert/Safe.antt =====
-- Which values `column2ClickColumn` takes without reading through a pointer that is not there.
use flexetl.Prelude.{ℕ, zero, suc, ◌≡◌, ◌≢◌, refl, some, inl, inr, Option-cases}
use flexetl.Prelude.Words.{Bytes}
use flexetl.Result.{Result, ok, throws, fault, out_of_fuel}
use flexetl.ClickTbl.Value.{Value, Values, nil, cons}
use flexetl.ClickTbl.Getters.{Platform}
use flexetl.Click2Db.Convert.{
  Client, Code, Terminal, terminal, nullable, unsupported, vector_of, cell_of, append_cells,
  append_arrays, append_flags, convert_as, convert_in, column_to_click_column,
}
use flexetl.Click2Db.Convert.Size.{Result-cases}

abbrev pub AllItems : (Value → Type 0) → Values → Type 0
AllItems P nil = Unit
AllItems P (cons v vs) = P v × AllItems P vs

module _ {Column : Type 0} (client : Client Column) where
  -- What a vector is in a column of this code, when `Shaped` is what a value is in one inside: the
  -- items of an array are shaped like the columns made for them, of which there is always one.
  abbrev pub Inside : (Value → Column → Type 0) → Code → Value → Values → Column → Type 0
  Inside Shaped Code.array v vs c =
      (i : Column) × (client.create (client.item_type c) ≡ some i)
      × AllItems (λ (w : Value). Shaped w i) vs
  Inside Shaped nullable v vs c = Shaped v (client.nested c)
  Inside Shaped _ v vs c = Unit

  -- A value that has an array wherever the type of the column has one.
  unfoldable pub IsShaped : ℕ → Value → Column → Type 0
  IsShaped zero v c = Unit
  IsShaped (suc f) v c =
      (vs : Values) × (vector_of v ≡ some vs) × Inside (IsShaped f) (client.code c) v vs c

module _ {Column : Type 0} (p : Platform) (client : Client Column) where
  append_cells_safe :
      (t : Terminal) (vs : Values) (c : Column) → append_cells p client t vs c ≢ fault
  unfolding append_cells
  append_cells_safe t nil c h = absurd cc
  append_cells_safe t (cons v vs) c h = elim (Option-cases (cell_of p t v)) [
    | inl e ↦ absurd (cc (rw (append_cells, e) at h))
    | inr (x, e) ↦ elim (Option-cases (client.append x c)) [
      | inl e' ↦ absurd (cc (rw (append_cells, e, e') at h))
      | inr (c', e') ↦ append_cells_safe t vs c' (rw (append_cells, e, e') at h)
    ]
  ]

  append_arrays_safe :
      (fill : Value → Column → Result Column) (name : Bytes) (vs : Values) (i c : Column)
      → client.create name ≡ some i
      → AllItems (λ (v : Value). fill v i ≢ fault) vs
      → append_arrays p client fill name vs c ≢ fault
  unfolding append_arrays
  append_arrays_safe fill name nil i c e safe h = absurd cc
  append_arrays_safe fill name (cons v vs) i c e (here, safe) h = elim (Result-cases (fill v i)) [
    | inl (filled, e') ↦ elim (Option-cases (client.append_array filled c)) [
      | inl e'' ↦ absurd (cc (rw (append_arrays, e, e', e'') at h))
      | inr (c', e'') ↦
          append_arrays_safe fill name vs i c' e safe (rw (append_arrays, e, e', e'') at h)
    ]
    | inr (inl (x, e')) ↦ absurd (cc (rw (append_arrays, e, e') at h))
    | inr (inr (inl e')) ↦ here e'
    | inr (inr (inr e')) ↦ absurd (cc (rw (append_arrays, e, e') at h))
  ]

  append_flags_safe :
      (v : Value) (vs : Values) (c : Column) (r : Result Column)
      → vector_of v ≡ some vs
      → r ≢ fault
      → append_flags p client v c r ≢ fault
  unfolding append_flags
  append_flags_safe v vs c (ok i) e safe h = absurd (cc (rw (append_flags, e) at h))
  append_flags_safe v vs c (throws x) e safe h = absurd cc
  append_flags_safe v vs c fault e safe h = safe refl
  append_flags_safe v vs c out_of_fuel e safe h = absurd cc

  AllItems-map :
      (P Q : Value → Type 0) (vs : Values)
      → ((v : Value) → P v → Q v)
      → AllItems P vs
      → AllItems Q vs
  AllItems-map P Q nil f h = tt
  AllItems-map P Q (cons v vs) f (h, hs) = (f v h, AllItems-map P Q vs f hs)

  convert_as_safe :
      (f : ℕ) (k : Code) (v : Value) (vs : Values) (c : Column)
      → vector_of v ≡ some vs
      → Inside client (IsShaped client f) k v vs c
      → ((w : Value) (i : Column) → IsShaped client f w i → convert_in p client f w i ≢ fault)
      → convert_as p client (convert_in p client f) k v c ≢ fault
  unfolding convert_as
  convert_as_safe f (terminal t) v vs c e shape safe h =
      append_cells_safe t vs c (rw (convert_as, e) at h)
  convert_as_safe f Code.array v vs c e (i, made, shape) safe h =
      append_arrays_safe (convert_in p client f) (client.item_type c) vs i c made
        (AllItems-map (λ (w : Value). IsShaped client f w i)
          (λ (w : Value). convert_in p client f w i ≢ fault) vs (λ w s. safe w i s) shape)
        (rw (convert_as, e) at h)
  convert_as_safe f nullable v vs c e shape safe h =
      append_flags_safe v vs c (convert_in p client f v (client.nested c)) e
        (safe v (client.nested c) shape) h
  convert_as_safe f unsupported v vs c e shape safe h = absurd cc

  convert_in_safe :
      (f : ℕ) (v : Value) (c : Column) → IsShaped client f v c → convert_in p client f v c ≢ fault
  unfolding convert_in IsShaped
  convert_in_safe zero v c shape h = absurd cc
  convert_in_safe (suc f) v c (vs, e, shape) h =
      convert_as_safe f (client.code c) v vs c e shape (λ w i s. convert_in_safe f w i s) h

  -- A value that has an array wherever the type of the column has one converts without undefined
  -- behaviour: it converts, or an exception is thrown.
  pub column_to_click_column_safe :
      (v : Value) (c : Column)
      → IsShaped client (suc (client.depth c)) v c
      → column_to_click_column p client v c ≢ fault
  unfolding column_to_click_column
  column_to_click_column_safe v c shape h = convert_in_safe (suc (client.depth c)) v c shape h
