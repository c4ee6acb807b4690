-- ===== src/Click2Db/Convert/Size.antt =====
-- How many rows `column2ClickColumn` appends.
use flexetl.Prelude.{
  ℕ, zero, suc, ◌+◌, ◌≡◌, refl, Bool, some, arith, ◌∙◌, ap, sym, inl, inr, ◌⊎◌, Option-cases,
}
use flexetl.Prelude.Words.{Bytes}
use flexetl.Result.{Result, Error, ok, throws, fault, out_of_fuel}
use flexetl.ClickTbl.Value.{
  Value, Values, array, nil, cons, size, unknown, str, int, uint, double, bool,
}
use flexetl.ClickTbl.Getters.{Platform, is_null}
use flexetl.Click2Db.Convert.{
  Client, Cell, Code, Terminal, terminal, nullable, unsupported, vector_of, cell_of, append_cells,
  append_nulls, append_arrays, append_flags, convert_as, convert_in, column_to_click_column,
}

-- What is relied on: a call of `Append` adds one row, a nullable column has a row for each flag and
-- shares its nested column, and a new column is empty.
pub record Counts {Column : Type 0} (client : Client Column) : Type 0 where
  pub size-create : (name : Bytes) (c : Column) → client.create name ≡ some c → client.size c ≡ 0
  pub size-append :
      (x : Cell) (c d : Column) → client.append x c ≡ some d → client.size d ≡ client.size c + 1
  pub size-append_array :
      (i c d : Column) → client.append_array i c ≡ some d → client.size d ≡ client.size c + 1
  pub size-append_null :
      (b : Bool) (c : Column) → client.size (client.append_null b c) ≡ client.size c + 1
  pub size-set_nested : (i c : Column) → client.size (client.set_nested i c) ≡ client.size c
  pub nested-set_nested :
      (i c : Column) → client.size (client.nested (client.set_nested i c)) ≡ client.size i
  pub nested-append_null :
      (b : Bool) (c : Column)
      → client.size (client.nested (client.append_null b c)) ≡ client.size (client.nested c)

pub vector_of_lem : (v : Value) (vs : Values) → vector_of v ≡ some vs → v ≡ array vs
unfolding vector_of
vector_of_lem (array ws) vs h = cc
vector_of_lem unknown vs h = absurd cc
vector_of_lem (str s) vs h = absurd cc
vector_of_lem (int n) vs h = absurd cc
vector_of_lem (uint n) vs h = absurd cc
vector_of_lem (double n) vs h = absurd cc
vector_of_lem (bool b) vs h = absurd cc

pub Result-cases {ℓ} :
    {A : Type ℓ} (r : Result A)
    → ((a : A) × (r ≡ ok a)) ⊎ ((e : Error) × (r ≡ throws e)) ⊎ (r ≡ fault) ⊎ (r ≡ out_of_fuel)
Result-cases (ok a) = inl (a, refl)
Result-cases (throws e) = inr (inl (e, refl))
Result-cases fault = inr (inr (inl refl))
Result-cases out_of_fuel = inr (inr (inr refl))

module _ {Column : Type 0} (client : Client Column) where
  -- A value that was converted is an array, and as many rows were added as it has items.
  abbrev pub Grown : Value → Column → Column → Type 0
  Grown v c d = (vs : Values) × (v ≡ array vs) × (client.size d ≡ client.size c + size vs)

module _ {Column : Type 0} (p : Platform) (client : Client Column) (counts : Counts client) where
  size-append_cells :
      (t : Terminal) (vs : Values) (c d : Column)
      → append_cells p client t vs c ≡ ok d
      → client.size d ≡ client.size c + size vs
  unfolding append_cells
  size-append_cells t nil c d h = let e : d ≡ c = cc in rw e (omega arith)
  size-append_cells t (cons v vs) c d h = elim (Option-cases (cell_of p t v)) [
    | inl e ↦ absurd (cc (rw (append_cells, e) at h))
    | inr (x, e) ↦ elim (Option-cases (client.append x c)) [
      | inl e' ↦ absurd (cc (rw (append_cells, e, e') at h))
      | inr (c', e') ↦ omega (
        arith,
        counts.size-append x c c' e',
        size-append_cells t vs c' d (rw (append_cells, e, e') at h),
      )
    ]
  ]

  size-append_nulls :
      (vs : Values) (c : Column)
      → (client.size (append_nulls p client vs c) ≡ client.size c + size vs)
        × (client.size (client.nested (append_nulls p client vs c)) ≡ client.size (client.nested c))
  unfolding append_nulls
  size-append_nulls nil c = (omega arith, refl)
  size-append_nulls (cons v vs) c =
      let (n, m) = size-append_nulls vs (client.append_null (is_null v) c) in
      (
        omega (arith, n, counts.size-append_null (is_null v) c),
        m ∙ counts.nested-append_null (is_null v) c,
      )

  size-append_arrays :
      (fill : Value → Column → Result Column) (name : Bytes) (vs : Values) (c d : Column)
      → append_arrays p client fill name vs c ≡ ok d
      → client.size d ≡ client.size c + size vs
  unfolding append_arrays
  size-append_arrays fill name nil c d h = let e : d ≡ c = cc in rw e (omega arith)
  size-append_arrays fill name (cons v vs) c d h = elim (Option-cases (client.create name)) [
    | inl e ↦ absurd (cc (rw (append_arrays, e) at h))
    | inr (item, e) ↦ elim (Result-cases (fill v item)) [
      | inl (filled, e') ↦ elim (Option-cases (client.append_array filled c)) [
        | inl e'' ↦ absurd (cc (rw (append_arrays, e, e', e'') at h))
        | inr (c', e'') ↦ omega (
          arith,
          counts.size-append_array filled c c' e'',
          size-append_arrays fill name vs c' d (rw (append_arrays, e, e', e'') at h),
        )
      ]
      | inr (inl (x, e')) ↦ absurd (cc (rw (append_arrays, e, e') at h))
      | inr (inr (inl e')) ↦ absurd (cc (rw (append_arrays, e, e') at h))
      | inr (inr (inr e')) ↦ absurd (cc (rw (append_arrays, e, e') at h))
    ]
  ]

  converted-Grown :
      (v : Value) (c d : Column) (vs : Values)
      → vector_of v ≡ some vs
      → client.size d ≡ client.size c + size vs
      → Grown client v c d
  converted-Grown v c d vs e h = (vs, vector_of_lem v vs e, h)

  append_flags-Grown :
      (v : Value) (c d : Column) (r : Result Column)
      → append_flags p client v c r ≡ ok d
      → (i : Column) × (r ≡ ok i)
        × Grown client v c d
        × (client.size (client.nested d) ≡ client.size i)
  unfolding append_flags
  append_flags-Grown v c d (ok i) h = elim (Option-cases (vector_of v)) [
    | inl e ↦ absurd (cc (rw (append_flags, e) at h))
    | inr (vs, e) ↦
        let (n, m) = size-append_nulls vs (client.set_nested i c) in
        let same : append_nulls p client vs (client.set_nested i c) ≡ d =
          cc (rw (append_flags, e) at h) in
        (
          i,
          refl,
          converted-Grown v c d vs e
              (rw (sym same) (n ∙ ap (λ (x : ℕ). x + size vs) (counts.size-set_nested i c))),
          rw (sym same) (m ∙ counts.nested-set_nested i c),
        )
  ]
  append_flags-Grown v c d (throws e) h = absurd cc
  append_flags-Grown v c d fault h = absurd cc
  append_flags-Grown v c d out_of_fuel h = absurd cc

  convert_as-Grown :
      (fill : Value → Column → Result Column) (k : Code) (v : Value) (c d : Column)
      → convert_as p client fill k v c ≡ ok d
      → Grown client v c d
  unfolding convert_as
  convert_as-Grown fill (terminal t) v c d h = elim (Option-cases (vector_of v)) [
    | inl e ↦ absurd (cc (rw (convert_as, e) at h))
    | inr (vs, e) ↦
        converted-Grown v c d vs e (size-append_cells t vs c d (rw (convert_as, e) at h))
  ]
  convert_as-Grown fill Code.array v c d h = elim (Option-cases (vector_of v)) [
    | inl e ↦ absurd (cc (rw (convert_as, e) at h))
    | inr (vs, e) ↦
        converted-Grown v c d vs e
          (size-append_arrays fill (client.item_type c) vs c d (rw (convert_as, e) at h))
  ]
  convert_as-Grown fill nullable v c d h =
      let (i, e, grown, m) = append_flags-Grown v c d (fill v (client.nested c)) h in grown
  convert_as-Grown fill unsupported v c d h = absurd cc

  convert_in-Grown :
      (f : ℕ) (v : Value) (c d : Column) → convert_in p client f v c ≡ ok d → Grown client v c d
  unfolding convert_in
  convert_in-Grown zero v c d h = absurd cc
  convert_in-Grown (suc f) v c d h =
      convert_as-Grown (convert_in p client f) (client.code c) v c d h

  -- A value that converts is an array, and the column has one row more for each of its items.
  pub column_to_click_column-Grown :
      (v : Value) (c d : Column) → column_to_click_column p client v c ≡ ok d → Grown client v c d
  unfolding column_to_click_column
  column_to_click_column-Grown v c d h = convert_in-Grown (suc (client.depth c)) v c d h
