-- ===== src/ClickTbl/Memory/Erased.antt =====
-- The calls on a column in memory do what those of Column do, and leak nothing.
use flexetl.Prelude.{
  ℕ, zero, suc, ◌≡◌, refl, ap, ◌∙◌, List, [], ◌∷◌, Option, some, arith, inl, inr, Bool-cases, ◌==◌,
}
use flexetl.ClickTbl.Value
use flexetl.ClickTbl.Value.{Value, Values}
use flexetl.ClickTbl.Column
use flexetl.ClickTbl.Column.{ClickColumn}
use flexetl.ClickTbl.Memory.{
  Cell, Cells, unknown, str, int, uint, double, array, bool, nil, cons, Live, construct,
  construct_all, owned, push, pad, size, Call, appends, reverts, Memory, call, calls, destroy,
}
use flexetl.ClickTbl.Memory.Freed.{times_in, first}
use flexetl.ClickTbl.Memory.Balanced.{
  Balanced, resized, appended, append-Balanced, reverted, revert-Balanced, reset_all-Balanced,
}

-- The value without its addresses.
unfoldable mutual
  pub erase : Cell → Value
  erase unknown = Value.unknown
  erase (str p s) = Value.str s
  erase (int n) = Value.int n
  erase (uint n) = Value.uint n
  erase (double n) = Value.double n
  erase (array p cs) = Value.array (erase_all cs)
  erase (bool b) = Value.bool b

  pub erase_all : Cells → Values
  erase_all nil = Values.nil
  erase_all (cons c cs) = Values.cons (erase c) (erase_all cs)

mutual
  unfolding erase construct

  erase-construct : (v : Value) (n : ℕ) → erase (construct v n).0 ≡ v
  erase-construct Value.unknown n = refl
  erase-construct (Value.str s) n = refl
  erase-construct (Value.int k) n = refl
  erase-construct (Value.uint k) n = refl
  erase-construct (Value.double k) n = refl
  erase-construct (Value.array vs) n = ap Value.array (erase_all-construct_all vs n)
  erase-construct (Value.bool b) n = refl

  erase_all-construct_all : (vs : Values) (n : ℕ) → erase_all (construct_all vs n).0 ≡ vs
  erase_all-construct_all Values.nil n = refl
  erase_all-construct_all (Values.cons v vs) n =
      cc (erase-construct v n, erase_all-construct_all vs (construct v n).1)

size-erase_all : (cs : Cells) → Value.size (erase_all cs) ≡ size cs
unfolding erase
size-erase_all nil = refl
size-erase_all (cons c cs) = ap suc (size-erase_all cs)

erase_all-push :
    (cs : Cells) (d : Cell) → erase_all (push cs d) ≡ Value.emplace_back (erase_all cs) (erase d)
unfolding erase push Value.emplace_back
erase_all-push nil d = refl
erase_all-push (cons c cs) d = ap (Values.cons (erase c)) (erase_all-push cs d)

erase_all-resized : (n : ℕ) (cs : Cells) → erase_all (resized n cs) ≡ Value.resize n (erase_all cs)
unfolding erase pad first Value.resize
erase_all-resized zero nil = refl
erase_all-resized zero (cons c cs) = refl
erase_all-resized (suc n) nil = ap (Values.cons Value.unknown) (erase_all-resized n nil)
erase_all-resized (suc n) (cons c cs) = ap (Values.cons (erase c)) (erase_all-resized n cs)

-- The same calls on a column of values.
unfoldable pub column_call : Call → ClickColumn → ClickColumn
column_call (appends full full' at v) c = Column.append at v c
column_call (reverts full at) c = Column.revert at c

unfoldable pub column_calls : List Call → ClickColumn → ClickColumn
column_calls [] c = c
column_calls (x ∷ xs) c = column_calls xs (column_call x c)

abbrev column_of : Cells → ClickColumn
column_of cs = record { cells = erase_all cs }

column_of-appended :
    (at : ℕ) (val : Cell) (v : Value) (cs : Cells)
    → erase val ≡ v
    → column_of (appended at val cs) ≡ Column.append at v (column_of cs)
unfolding Column.append
column_of-appended at val v cs same = elim (Bool-cases (size cs == at)) [
  | inl e ↦ rw (size-erase_all cs, e, erase_all-push cs val, same) refl
  | inr e ↦
      rw (size-erase_all cs, e, erase_all-push (resized at cs) val, same, erase_all-resized at cs)
        refl
]

column_of-reverted :
    (at : ℕ) (cs : Cells) → column_of (reverted at cs) ≡ Column.revert at (column_of cs)
unfolding Column.revert erase
column_of-reverted at cs = elim (Bool-cases (at == 0)) [
  | inl e ↦ rw e refl
  | inr e ↦ rw (e, erase_all-resized at cs) refl
]

-- A call that ends, on what is allocated besides the column and on its values.
abbrev Calls : Live → Option Memory → ClickColumn → Type 0
Calls start o c =
    (m : Memory) × (o ≡ some m) × Balanced start m.cells m.live × (column_of m.cells ≡ c)

call-Calls :
    (x : Call) (start : Live) (m : Memory)
    → Balanced start m.cells m.live
    → Calls start (call x m) (column_call x (column_of m.cells))
unfolding call column_call Column.append Column.revert
call-Calls (appends full full' at v) start m h =
    let (val, next) = construct v m.next in
    let (rest, done, balanced) = append-Balanced full full' at val m.cells start m.live h in
    (
      record { cells = appended at val m.cells; live = rest; next = next },
      rw (call, done) refl,
      balanced,
      column_of-appended at val v m.cells (erase-construct v m.next),
    )
call-Calls (reverts full at) start m h =
    let (rest, done, balanced) = revert-Balanced full at m.cells start m.live h in
    (
      record m { cells = reverted at m.cells; live = rest },
      rw (call, done) refl,
      balanced,
      column_of-reverted at m.cells,
    )

calls-Calls :
    (xs : List Call) (start : Live) (m : Memory)
    → Balanced start m.cells m.live
    → Calls start (calls xs m) (column_calls xs (column_of m.cells))
unfolding calls column_calls
calls-Calls [] start m h = (m, refl, h, refl)
calls-Calls (x ∷ xs) start m h =
    let (m', done, balanced, same) = call-Calls x start m h in
    let (m'', done', balanced', same') = calls-Calls xs start m' balanced in
    (m'', rw done done', balanced', same' ∙ ap (column_calls xs) same)

-- Any calls of `append` and `revert` on a new column, however its vector grows, free nothing that is
-- not allocated and give the column that Column says; and its destructor then frees exactly what
-- they left allocated: what was allocated before is so again, and nothing else is.
pub calls-column_calls :
    (xs : List Call) (start : Live) (next : ℕ)
    → (m : Memory) × (rest : Live) × (calls xs (record { cells = nil; live = start; next = next })
        ≡ some m)
      × (erase_all m.cells ≡ (column_calls xs Column.empty).cells)
      × (destroy m ≡ some rest)
      × ((a : ℕ) → times_in a rest ≡ times_in a start)
unfolding destroy erase owned
calls-column_calls xs start next =
    let (m, done, balanced, same) =
      calls-Calls xs start (record { cells = nil; live = start; next = next }) (λ a. omega arith) in
    let (rest, freed, counted) = reset_all-Balanced m.cells start m.live balanced in
    (m, rest, done, ap (λ (c : ClickColumn). c.cells) same, freed, counted)
