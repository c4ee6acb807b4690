-- ===== src/Click2Db/Block/Aligned.antt =====
-- `fillTable` on the tables that `ClickTable` makes.
use flexetl.Prelude.{
  ℕ, zero, suc, ◌≡◌, refl, ap, sym, subst, length, ◌+◌, Bool, true, false, inl, inr, [], ◌∷◌, some,
  arith, Option-cases,
}
use flexetl.Prelude.Words.{Bytes}
use flexetl.StdMap.{Map, find, AllValues}
use flexetl.Result.{ok}
use flexetl.ClickTbl.Value.{Value, Values, array, size}
use flexetl.ClickTbl.Getters.{Platform}
use flexetl.ClickTbl.Column.{ClickColumn}
use flexetl.ClickTbl.Table.{ClickTable}
use flexetl.ClickTbl.Table.Aligned.{IsAligned}
use flexetl.Click2Db.Convert.{Client, Code, terminal, nullable, unsupported, vector_of}
use flexetl.Click2Db.Convert.Size.{Counts, Result-cases, column_to_click_column-Grown}
use flexetl.Click2Db.Convert.Fuel.{Nests, column_to_click_column_ends}
use flexetl.Click2Db.Convert.Safe.{Inside, IsShaped, column_to_click_column_safe}
use flexetl.Click2Db.Block.{fill_table}
use flexetl.Click2Db.Block.Fill.{
  converted, usable, usable_columns, IsSafe, HasRows, fill_table-usable_columns,
}

-- The number of items, 0 for what is not an array.
abbrev size_of : Value → ℕ
size_of (array vs) = size vs
size_of _ = 0

-- Neither an array nor nullable.
abbrev is_plain : Code → Bool
is_plain (terminal t) = true
is_plain unsupported = true
is_plain Code.array = false
is_plain nullable = false

module _ {Column : Type 0} (client : Client Column) where
  -- A type that is not an array, and if it is nullable, neither is the one inside.
  abbrev is_flat_as : Code → Column → Bool
  is_flat_as (terminal t) c = true
  is_flat_as unsupported c = true
  is_flat_as Code.array c = false
  is_flat_as nullable c = is_plain (client.code (client.nested c))

  unfoldable pub is_flat : Column → Bool
  is_flat c = is_flat_as (client.code c) c

  Inside-is_plain :
      (f : ℕ) (k : Code) (vs : Values) (c : Column)
      → is_plain k ≡ true
      → Inside client (IsShaped client f) k (array vs) vs c
  Inside-is_plain f (terminal t) vs c h = tt
  Inside-is_plain f unsupported vs c h = tt
  Inside-is_plain f Code.array vs c h = absurd cc
  Inside-is_plain f nullable vs c h = absurd cc

  Inside-is_flat :
      (f : ℕ) (k : Code) (vs : Values) (c : Column)
      → is_flat_as k c ≡ true
      → Inside client (IsShaped client f) k (array vs) vs c
  unfolding IsShaped vector_of
  Inside-is_flat f (terminal t) vs c h = tt
  Inside-is_flat f unsupported vs c h = tt
  Inside-is_flat f Code.array vs c h = absurd cc
  Inside-is_flat zero nullable vs c h = tt
  Inside-is_flat (suc f) nullable vs c h =
      (vs, refl, Inside-is_plain f (client.code (client.nested c)) vs (client.nested c) h)

  is_flat-IsShaped :
      (f : ℕ) (vs : Values) (c : Column) → is_flat c ≡ true → IsShaped client f (array vs) c
  unfolding is_flat IsShaped vector_of
  is_flat-IsShaped zero vs c h = tt
  is_flat-IsShaped (suc f) vs c h = (vs, refl, Inside-is_flat f (client.code c) vs c h)

module _ {Column : Type 0} (p : Platform) (client : Client Column) (counts : Counts client)
    (nests : Nests client) (types : Map Bytes)
    (flat : (k name : Bytes) (c : Column)
      → find k types ≡ some name
      → client.create name ≡ some c
      → is_flat client c ≡ true) where
  flat_IsSafe : (m : Map ClickColumn) → IsSafe p client types m
  unfolding IsSafe converted
  flat_IsSafe [] = tt
  flat_IsSafe ((name, c) ∷ m) = elim (Option-cases (find name types)) [
    | inl e ↦ (
      λ h. absurd (cc (rw (converted, e) at h)),
      λ h. absurd (cc (rw (converted, e) at h)),
      flat_IsSafe m,
    )
    | inr (type_name, e) ↦ elim (Option-cases (client.create type_name)) [
      | inl e' ↦ (
        λ h. absurd (cc (rw (converted, e, e') at h)),
        λ h. absurd (cc (rw (converted, e, e') at h)),
        flat_IsSafe m,
      )
      | inr (column, e') ↦ (
        λ h.
            column_to_click_column_safe p client (array c.cells) column
              (is_flat-IsShaped client (suc (client.depth column)) c.cells column
                (flat name type_name column e e'))
              (rw (converted, e, e') at h),
        λ h.
            column_to_click_column_ends p client nests (array c.cells) column
              (rw (converted, e, e') at h),
        flat_IsSafe m,
      )
    ]
  ]

  usable_rows :
      (n : ℕ) (k : Bytes) (c : ClickColumn) (d : Column)
      → size c.cells ≡ n
      → converted p client types (k, c) ≡ ok d
      → client.size d ≡ n
  unfolding converted
  usable_rows n k c d e h = elim (Option-cases (find k types)) [
    | inl no_type ↦ absurd (cc (rw (converted, no_type) at h))
    | inr (name, named) ↦ elim (Option-cases (client.create name)) [
      | inl no_column ↦ absurd (cc (rw (converted, named, no_column) at h))
      | inr (column, made) ↦
          let (vs, same, grown) =
            column_to_click_column-Grown p client counts (array c.cells) column d
              (rw (converted, named, made) at h) in
          let cells : size c.cells ≡ size vs = ap size_of same in
          omega (arith, counts.size-create name column made, grown, cells, e)
    ]
  ]

  usable_columns-HasRows :
      (n : ℕ) (m : Map ClickColumn)
      → AllValues (λ c. size c.cells ≡ n) m
      → HasRows p client n (usable_columns p client types m)
  unfolding usable_columns usable
  usable_columns-HasRows n [] h = tt
  usable_columns-HasRows n ((k, c) ∷ m) (e, h) =
      elim (Result-cases (converted p client types (k, c))) [
        | inl (d, ok_d) ↦
            rw (usable_columns, usable, ok_d)
              (usable_rows n k c d e ok_d, usable_columns-HasRows n m h)
        | inr (inl (x, e')) ↦ rw (usable_columns, usable, e') (usable_columns-HasRows n m h)
        | inr (inr (inl e')) ↦ rw (usable_columns, usable, e') (usable_columns-HasRows n m h)
        | inr (inr (inr e')) ↦ rw (usable_columns, usable, e') (usable_columns-HasRows n m h)
      ]

  -- A table whose columns each hold a value for each row is filled into a block of as many rows,
  -- when no type of the description is an array, or a nullable type around an array or around a
  -- nullable type: `AppendColumn` never throws and nothing undefined happens; each column of the
  -- block has that number of rows; the columns that are not in it are as many as the errors.
  pub fill_table-IsAligned :
      (t : ClickTable)
      → IsAligned t
      → let f = fill_table p client types t.tbl in
        (f.thrown ≡ false)
        × (f.crashed ≡ false)
        × HasRows p client t.row_count f.block
        × (f.errors + length f.block ≡ length t.tbl)
  fill_table-IsAligned t h =
      let rows = usable_columns-HasRows t.row_count t.tbl h.level in
      let (going, alive, filled, counted) =
        fill_table-usable_columns p client types t.tbl t.row_count (flat_IsSafe t.tbl) rows in
      (going, alive, subst (HasRows p client t.row_count) (sym filled) rows, counted)
