-- ===== src/Click2Db/Block/Fill.antt =====
-- What `fillTable` makes of a table.
use flexetl.Prelude.{
  ℕ, ◌+◌, ◌≡◌, refl, ap, sym, subst, ◌∙◌, inl, inr, Bool, true, false, ◌||◌, ◌≢◌, [], ◌∷◌, ◌++◌,
  Option, none, some, if◌then◌else◌, length, length-append, arith, Option-cases, append-nil,
  append_assoc, All,
}
use flexetl.Prelude.Words.{Bytes}
use flexetl.StdMap.{Map, find}
use flexetl.ClickTbl.Getters.{Platform}
use flexetl.Result.{Result, ok, throws, fault, out_of_fuel, unsupported_type}
use flexetl.Click2Db.Convert.{Client, column_to_click_column}
use flexetl.Click2Db.Convert.Size.{Result-cases}
use flexetl.ClickTbl.Value.{array}
use flexetl.ClickTbl.Column.{ClickColumn}
use flexetl.Click2Db.Block.{
  Block, Filling, fits, append_column, fill_column, fill_columns, fill_table,
}

module _ {Column : Type 0} (p : Platform) (client : Client Column) where
  -- A column of the table as a column of the block, if there is one of its name in the description
  -- and its values convert.
  unfoldable pub converted : Map Bytes → Bytes × ClickColumn → Result Column
  converted types (name, c) = elim (find name types) [
    | none ↦ throws unsupported_type
    | some type_name ↦ elim (client.create type_name) [
      | none ↦ throws unsupported_type
      | some column ↦ column_to_click_column p client (array c.cells) column
    ]
  ]

  unfoldable pub usable : Map Bytes → Bytes × ClickColumn → Option Column
  usable types c = elim (converted types c) [ ok column ↦ some column | _ ↦ none ]

  -- No column of the table meets undefined behaviour.
  unfoldable pub IsSafe : Map Bytes → Map ClickColumn → Type 0
  IsSafe types [] = Unit
  IsSafe types (c ∷ m) =
      (converted types c ≢ fault) × (converted types c ≢ out_of_fuel) × IsSafe types m

  unfoldable pub usable_columns : Map Bytes → Map ClickColumn → Block Column
  usable_columns types [] = []
  usable_columns types (c ∷ m) =
      let rest = usable_columns types m in
      elim (usable types c) [ none ↦ rest | some column ↦ (c.0, column) ∷ rest ]

  -- The columns of the block have one number of rows.
  abbrev pub HasRows : ℕ → Block Column → Type 0
  HasRows n b = All (λ (c : Bytes × Column). client.size c.1 ≡ n) b

  fits-HasRows :
      (n : ℕ) (column : Column) (b : Block Column)
      → HasRows n b
      → client.size column ≡ n
      → fits p client column b ≡ true
  fits-HasRows n column [] h e = refl
  fits-HasRows n column ((name, first) ∷ b) h e = ground (arith, h.0)

  HasRows-append : (n : ℕ) (a b : Block Column) → HasRows n a → HasRows n b → HasRows n (a ++ b)
  HasRows-append n [] b ha hb = hb
  HasRows-append n (c ∷ a) b (h, ha) hb = (h, HasRows-append n a b ha hb)

  HasRows-split : (n : ℕ) (a b : Block Column) → HasRows n (a ++ b) → HasRows n a × HasRows n b
  HasRows-split n [] b h = (tt, h)
  HasRows-split n (c ∷ a) b (h, hs) = let (ha, hb) = HasRows-split n a b hs in ((h, ha), hb)

  -- The block, the flag and the errors behind some columns of one number of rows.
  abbrev Filled : Map Bytes → Map ClickColumn → Filling Column → Filling Column → Type 0
  Filled types m f f' =
      (f'.thrown ≡ f.thrown)
      × (f'.crashed ≡ f.crashed)
      × (f'.block ≡ f.block ++ usable_columns types m)
      × (f'.errors + length f'.block ≡ f.errors + length f.block + length m)

  -- One more column of a good block.
  fill_column_lem :
      (types : Map Bytes) (name : Bytes) (c : ClickColumn) (n : ℕ) (f : Filling Column)
      → IsSafe types ((name, c) ∷ [])
      → HasRows n f.block
      → HasRows n (usable_columns types ((name, c) ∷ []))
      → Filled types ((name, c) ∷ []) f (fill_column p client types (name, c) f)
  unfolding fill_column converted usable append_column usable_columns IsSafe
  fill_column_lem types name c n f (no_fault, fuel, _) h k = elim (Option-cases (find name types)) [
    | inl e ↦
        rw (e, fill_column, converted, usable, usable_columns)
          (refl, refl, sym (append-nil f.block), omega arith)
    | inr (type_name, e) ↦ elim (Option-cases (client.create type_name)) [
      | inl e' ↦
          rw (e, e', fill_column, converted, usable, usable_columns)
            (refl, refl, sym (append-nil f.block), omega arith)
      | inr (column, e') ↦
          elim (Result-cases (column_to_click_column p client (array c.cells) column)) [
            | inl (filled, e'') ↦
                let same_rows : client.size filled ≡ n =
                  (rw (e, usable_columns, usable, converted, e', e'') at k).0 in
                let fitting = fits-HasRows n filled f.block h same_rows in
                rw
                  (
                    e, e', e'', fill_column, append_column, converted, usable, usable_columns,
                    fitting,
                  )
                  (refl, refl, refl, omega (arith, length-append f.block ((name, filled) ∷ [])))
            | inr (inl (x, e'')) ↦
                rw (e, e', e'', fill_column, converted, usable, usable_columns)
                  (refl, refl, sym (append-nil f.block), omega arith)
            | inr (inr (inl e'')) ↦ absurd (no_fault (rw (e, converted, e') e''))
            | inr (inr (inr e'')) ↦ absurd (fuel (rw (e, converted, e') e''))
          ]
    ]
  ]

  usable_columns-cons :
      (types : Map Bytes) (c : Bytes × ClickColumn) (m : Map ClickColumn)
      → usable_columns types (c ∷ m) ≡ usable_columns types (c ∷ []) ++ usable_columns types m
  unfolding usable_columns
  usable_columns-cons types c m = elim (Option-cases (usable types c)) [
    | inl e ↦ rw (e, usable_columns) refl
    | inr (column, e) ↦ rw (e, usable_columns) refl
  ]

  skip : (b : Bool) (x y : Filling Column) → b ≡ false → (if b then x else y) ≡ y
  skip true x y e = absurd cc
  skip false x y e = refl

  fill_columns_lem :
      (types : Map Bytes) (m : Map ClickColumn) (n : ℕ) (f : Filling Column)
      → IsSafe types m
      → (f.thrown || f.crashed) ≡ false
      → HasRows n f.block
      → HasRows n (usable_columns types m)
      → Filled types m f (fill_columns p client types m f)
  unfolding fill_columns usable_columns IsSafe
  fill_columns_lem types [] n f safe going h k = (refl, refl, sym (append-nil f.block), omega arith)
  fill_columns_lem types ((name, c) ∷ m) n f (no_fault, fuel, safe) going h k =
      let split = usable_columns-cons types (name, c) m in
      let first = usable_columns types ((name, c) ∷ []) in
      let (here, there) =
        HasRows-split n first (usable_columns types m) (subst (HasRows n) split k) in
      let f' = fill_column p client types (name, c) f in
      let (t, d, b, l) = fill_column_lem types name c n f (no_fault, fuel, tt) h here in
      let (t', d', b', l') =
        fill_columns_lem types m n f' safe (rw (t, d) going)
          (subst (HasRows n) (sym b) (HasRows-append n f.block first h here)) there in
      subst (Filled types ((name, c) ∷ m) f)
        (sym (skip (f.thrown || f.crashed) f (fill_columns p client types m f') going))
        (
          t' ∙ t,
          d' ∙ d,
          b'
              ∙ ap (λ (x : Block Column). x ++ usable_columns types m) b
              ∙ append_assoc f.block first (usable_columns types m)
              ∙ ap (λ (x : Block Column). f.block ++ x) (sym split),
          omega (arith, l, l'),
        )

  -- If no column meets undefined behaviour and those that can be filled have one number of rows,
  -- `fillTable` does not throw; the block has exactly those columns whose name is in the description,
  -- whose type can be created and whose values convert, in the order of the table, and each other
  -- column counts as one error.
  pub fill_table-usable_columns :
      (types : Map Bytes) (m : Map ClickColumn) (n : ℕ)
      → IsSafe types m
      → HasRows n (usable_columns types m)
      → let f = fill_table p client types m in
        (f.thrown ≡ false)
        × (f.crashed ≡ false)
        × (f.block ≡ usable_columns types m)
        × (f.errors + length f.block ≡ length m)
  unfolding fill_table
  fill_table-usable_columns types m n safe h =
      let (going, alive, filled, counted) =
        fill_columns_lem types m n
          (record {
            block = [];
            unknown_types = false;
            errors = 0;
            thrown = false;
            crashed = false;
          })
          safe refl tt h in
      (going, alive, filled, omega (arith, counted))
