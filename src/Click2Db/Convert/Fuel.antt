-- ===== src/Click2Db/Convert/Fuel.antt =====
-- The calls of itself that `column2ClickColumn` makes end: the type of the column gets less deep.
use flexetl.Prelude.{ℕ, zero, suc, ◌<◌, ◌≡◌, ◌≢◌, refl, some, arith, inl, inr, Option-cases}
use flexetl.Prelude.Words.{Bytes}
use flexetl.Result.{Result, ok, throws, fault, out_of_fuel}
use flexetl.ClickTbl.Value.{Value, Values, nil, cons}
use flexetl.ClickTbl.Getters.{Platform}
use flexetl.Click2Db.Convert.{
  Client, Code, Terminal, terminal, nullable, unsupported, vector_of, cell_of, append_cells,
  append_arrays, append_flags, convert_as, convert_in, column_to_click_column,
}
use flexetl.Click2Db.Convert.Size.{Result-cases}

-- What is relied on: a column inside another, or made for its items, has a type less deep.
pub record Nests {Column : Type 0} (client : Client Column) : Type 0 where
  pub depth-nested :
      (c : Column) → client.code c ≡ nullable → client.depth (client.nested c) < client.depth c
  pub depth-create :
      (c i : Column)
      → client.code c ≡ Code.array
      → client.create (client.item_type c) ≡ some i
      → client.depth i < client.depth c

module _ {Column : Type 0} (p : Platform) (client : Client Column) (nests : Nests client) where
  append_cells-ends :
      (t : Terminal) (vs : Values) (c : Column) → append_cells p client t vs c ≢ out_of_fuel
  unfolding append_cells
  append_cells-ends t nil c h = absurd cc
  append_cells-ends t (cons v vs) c h = elim (Option-cases (cell_of p t v)) [
    | inl e ↦ absurd (cc (rw (append_cells, e) at h))
    | inr (x, e) ↦ elim (Option-cases (client.append x c)) [
      | inl e' ↦ absurd (cc (rw (append_cells, e, e') at h))
      | inr (c', e') ↦ append_cells-ends t vs c' (rw (append_cells, e, e') at h)
    ]
  ]

  append_arrays-ends :
      (fill : Value → Column → Result Column) (name : Bytes) (vs : Values) (c : Column)
      → ((i : Column) → client.create name ≡ some i → (v : Value) → fill v i ≢ out_of_fuel)
      → append_arrays p client fill name vs c ≢ out_of_fuel
  unfolding append_arrays
  append_arrays-ends fill name nil c ends h = absurd cc
  append_arrays-ends fill name (cons v vs) c ends h = elim (Option-cases (client.create name)) [
    | inl e ↦ absurd (cc (rw (append_arrays, e) at h))
    | inr (i, e) ↦ elim (Result-cases (fill v i)) [
      | inl (filled, e') ↦ elim (Option-cases (client.append_array filled c)) [
        | inl e'' ↦ absurd (cc (rw (append_arrays, e, e', e'') at h))
        | inr (c', e'') ↦
            append_arrays-ends fill name vs c' ends (rw (append_arrays, e, e', e'') at h)
      ]
      | inr (inl (x, e')) ↦ absurd (cc (rw (append_arrays, e, e') at h))
      | inr (inr (inl e')) ↦ absurd (cc (rw (append_arrays, e, e') at h))
      | inr (inr (inr e')) ↦ ends i e v e'
    ]
  ]

  append_flags-ends :
      (v : Value) (c : Column) (r : Result Column)
      → r ≢ out_of_fuel
      → append_flags p client v c r ≢ out_of_fuel
  unfolding append_flags
  append_flags-ends v c (ok i) ends h = elim (Option-cases (vector_of v)) [
    | inl e ↦ absurd (cc (rw (append_flags, e) at h))
    | inr (vs, e) ↦ absurd (cc (rw (append_flags, e) at h))
  ]
  append_flags-ends v c (throws e) ends h = absurd cc
  append_flags-ends v c fault ends h = absurd cc
  append_flags-ends v c out_of_fuel ends h = ends refl

  convert_as-ends :
      (f : ℕ) (k : Code) (v : Value) (c : Column)
      → client.code c ≡ k
      → ((i : Column)
          → client.depth i < client.depth c
          → (w : Value) → convert_in p client f w i ≢ out_of_fuel)
      → convert_as p client (convert_in p client f) k v c ≢ out_of_fuel
  unfolding convert_as
  convert_as-ends f (terminal t) v c k ends h = elim (Option-cases (vector_of v)) [
    | inl e ↦ absurd (cc (rw (convert_as, e) at h))
    | inr (vs, e) ↦ append_cells-ends t vs c (rw (convert_as, e) at h)
  ]
  convert_as-ends f Code.array v c k ends h = elim (Option-cases (vector_of v)) [
    | inl e ↦ absurd (cc (rw (convert_as, e) at h))
    | inr (vs, e) ↦
        append_arrays-ends (convert_in p client f) (client.item_type c) vs c
          (λ i made w. ends i (nests.depth-create c i k made) w) (rw (convert_as, e) at h)
  ]
  convert_as-ends f nullable v c k ends h =
      append_flags-ends v c (convert_in p client f v (client.nested c))
        (ends (client.nested c) (nests.depth-nested c k) v) h
  convert_as-ends f unsupported v c k ends h = absurd cc

  convert_in-ends :
      (f : ℕ) (v : Value) (c : Column)
      → client.depth c < f
      → convert_in p client f v c ≢ out_of_fuel
  unfolding convert_in
  convert_in-ends zero v c deep h = absurd (omega arith)
  convert_in-ends (suc f) v c deep h =
      convert_as-ends f (client.code c) v c refl
        (λ i less w. convert_in-ends f w i (omega (arith, less))) h

  -- The fuel given is enough: the conversion of any value into any column ends.
  pub column_to_click_column_ends :
      (v : Value) (c : Column) → column_to_click_column p client v c ≢ out_of_fuel
  unfolding column_to_click_column
  column_to_click_column_ends v c = convert_in-ends (suc (client.depth c)) v c (omega arith)
