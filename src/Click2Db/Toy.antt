-- ===== src/Click2Db/Toy.antt =====
-- A small client library that does what src/flexetl/click2db.cpp relies on, for the examples: the type
-- of numbers has the empty name, an array of numbers a name of one byte, and a nullable number any
-- other; a column only counts its rows and those of the column inside.
use flexetl.Prelude.{ℕ, ◌+◌, ◌≡◌, refl, [], ◌∷◌, Option, none, some, arith, ap, sym, ◌<◌}
use flexetl.Prelude.Words.{Bytes}
use flexetl.Click2Db.Convert.{Client, Code, Terminal, terminal, nullable}
use flexetl.Click2Db.Convert.Size.{Counts}
use flexetl.Click2Db.Convert.Fuel.{Nests}

pub record Column : Type 0 where
  pub kind : Code
  pub rows : ℕ
  pub inner : ℕ

abbrev empty_of : Code → Column
empty_of k = record { kind = k; rows = 0; inner = 0 }

abbrev create : Bytes → Option Column
create [] = some (empty_of (terminal Terminal.int64))
create (a ∷ []) = some (empty_of Code.array)
create (a ∷ b ∷ s) = some (empty_of nullable)

abbrev rows_of : Option Column → ℕ
rows_of none = 0
rows_of (some c) = c.rows

abbrev depth_of : Code → ℕ
depth_of (terminal t) = 0
depth_of _ = 1

abbrev inside_of : Option Column → ℕ
inside_of none = 0
inside_of (some c) = depth_of c.kind

abbrev pub client : Client Column
client = record {
  create = create;
  code = λ c. c.kind;
  size = λ c. c.rows;
  depth = λ c. depth_of c.kind;
  append = λ x c. some (record c { rows = c.rows + 1 });
  item_type = λ c. [];
  append_array = λ i c. some (record c { rows = c.rows + 1 });
  nested = λ c. record { kind = terminal Terminal.int64; rows = c.inner; inner = 0 };
  set_nested = λ i c. record c { inner = i.rows };
  append_null = λ b c. record c { rows = c.rows + 1 };
}

created_empty : (name : Bytes) (c : Column) → create name ≡ some c → c.rows ≡ 0
created_empty [] c h = sym (ap rows_of h)
created_empty (a ∷ []) c h = sym (ap rows_of h)
created_empty (a ∷ b ∷ s) c h = sym (ap rows_of h)

appended : (c d : Column) → some (record c { rows = c.rows + 1 }) ≡ some d → d.rows ≡ c.rows + 1
appended c d h = sym (ap rows_of h)

pub counts : Counts client
counts = record {
  size-create = created_empty;
  size-append = λ x c d h. appended c d h;
  size-append_array = λ i c d h. appended c d h;
  size-append_null = λ b c. refl;
  size-set_nested = λ i c. refl;
  nested-set_nested = λ i c. refl;
  nested-append_null = λ b c. refl;
}

nested_depth : (k : Code) → k ≡ nullable → 0 < depth_of k
nested_depth k e = rw e (omega arith)

item_depth :
    (k : Code) (i : Column) → k ≡ Code.array → create [] ≡ some i → depth_of i.kind < depth_of k
item_depth k i e h = rw (e, ← ap inside_of h) (omega arith)

pub nests : Nests client
nests = record {
  depth-nested = λ c e. nested_depth c.kind e;
  depth-create = λ c i e h. item_depth c.kind i e h;
}
