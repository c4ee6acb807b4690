-- ===== src/ClickTbl/Memory.antt =====
-- src/flexetl/clicktbl.h and clicktbl.inl: the memory that a `Value` owns, and what `ClickColumn` does
-- with it. An object on the heap has an address; the pointer of a moved-from value is null. The vector
-- of the column itself is left out.
pub mod Freed
pub mod Balanced
pub mod Erased
use flexetl.Prelude.{
  ℕ, zero, suc, ◌+◌, Bool, true, false, List, [], ◌∷◌, ◌++◌, Option, none, some, ◌==◌,
  if◌then◌else◌,
}
use flexetl.Prelude.Words.{Bytes}
use flexetl.ClickTbl.Value.{Value, Values}

-- A `Value` in memory: a string and an array are pointers, with what they point to.
mutual
  pub data Cell : Type 0 where
    unknown : Cell
    str : Option ℕ → Bytes → Cell
    int uint double : ℕ → Cell
    array : Option ℕ → Cells → Cell
    bool : Bool → Cell

  pub data Cells : Type 0 where
    nil : Cells
    cons : Cell → Cells → Cells

-- The addresses that are allocated.
abbrev pub Live : Type 0
Live = List ℕ

infixl 1 ◌>>=◌
abbrev ◌>>=◌ {ℓ κ} : {A : Type ℓ} {B : Type κ} → Option A → (A → Option B) → Option B
none >>= f = none
some a >>= f = f a

-- `delete` of an address: `none` if it is not allocated.
unfoldable pub free : ℕ → Live → Option Live
free a [] = none
free a (b ∷ live) = if a == b then some live else (do rest ← free a live; some (b ∷ rest))

-- `reset`, which is the destructor, and the destructors of the values in a vector.
unfoldable mutual
  pub reset : Cell → Live → Option Live
  reset (str (some a) s) live = free a live
  reset (array (some a) cs) live = do rest ← reset_all cs live; free a rest
  reset _ live = some live

  pub reset_all : Cells → Live → Option Live
  reset_all nil live = some live
  reset_all (cons c cs) live = do rest ← reset c live; reset_all cs rest

-- `Value(Value &&val)`: the new value has the old one's type, number and pointer; this is what is
-- left of `val`, whose pointer was swapped for a null one.
unfoldable pub moved_from : Cell → Cell
moved_from (str p s) = str none []
moved_from (array p cs) = array none nil
moved_from c = c

-- `Value(std::string &&)`, `Value(std::vector<Value> &&)` and `Value(T)`: addresses from `n` on are new.
unfoldable mutual
  pub construct : Value → ℕ → Cell × ℕ
  construct Value.unknown n = (unknown, n)
  construct (Value.str s) n = (str (some n) s, n + 1)
  construct (Value.int k) n = (int k, n)
  construct (Value.uint k) n = (uint k, n)
  construct (Value.double k) n = (double k, n)
  construct (Value.array vs) n = let (cs, n') = construct_all vs n in (array (some n') cs, n' + 1)
  construct (Value.bool b) n = (bool b, n)

  pub construct_all : Values → ℕ → Cells × ℕ
  construct_all Values.nil n = (nil, n)
  construct_all (Values.cons v vs) n =
      let (c, n') = construct v n in let (cs, n'') = construct_all vs n' in (cons c cs, n'')

-- The addresses that a value owns.
unfoldable mutual
  pub owned : Cell → List ℕ
  owned (str (some a) s) = a ∷ []
  owned (array (some a) cs) = a ∷ owned_all cs
  owned (array none cs) = []
  owned _ = []

  pub owned_all : Cells → List ℕ
  owned_all nil = []
  owned_all (cons c cs) = owned c ++ owned_all cs

abbrev pub size : Cells → ℕ
size nil = 0
size (cons c cs) = suc (size cs)

-- A vector that grows past its capacity: each value is moved, and what is left of it destroyed.
unfoldable pub relocate : Cells → Live → Option Live
relocate nil live = some live
relocate (cons c cs) live = do rest ← reset (moved_from c) live; relocate cs rest

unfoldable pub push : Cells → Cell → Cells
push nil d = cons d nil
push (cons c cs) d = cons c (push cs d)

-- `emplace_back(std::move(val))`, also of the caller's `val`, which is destroyed later.
unfoldable pub emplace_back : Bool → Cells → Cell → Live → Option (Cells × Live)
emplace_back full cs val live = do
  live' ← if full then relocate cs live else some live
  live'' ← reset (moved_from val) live'
  some (push cs val, live'')

-- The values up to a size, the others being destroyed; and nulls up to a size.
unfoldable pub cut : ℕ → Cells → Live → Option (Cells × Live)
cut n nil live = some (nil, live)
cut zero (cons c cs) live = do rest ← reset_all (cons c cs) live; some (nil, rest)
cut (suc n) (cons c cs) live = do (ds, rest) ← cut n cs live; some (cons c ds, rest)

unfoldable pub pad : ℕ → Cells → Cells
pad zero cs = cs
pad (suc n) nil = cons unknown (pad n nil)
pad (suc n) (cons c cs) = cons c (pad n cs)

-- `resize(n)`
unfoldable pub resize : Bool → ℕ → Cells → Live → Option (Cells × Live)
resize full n cs live = do
  live' ← if full then relocate cs live else some live
  (ds, rest) ← cut n cs live'
  some (pad n ds, rest)

-- `ClickColumn::append` and `revert`; which of the vector's calls have to grow is the library's
-- choice. This is the `append` of a `Value`; the template constructs the value in its place.
unfoldable pub append : Bool → Bool → ℕ → Cell → Cells → Live → Option (Cells × Live)
append full full' at val cs live = do
  (sized, live') ← if size cs == at then some (cs, live) else resize full at cs live
  emplace_back full' sized val live'

unfoldable pub revert : Bool → ℕ → Cells → Live → Option (Cells × Live)
revert full at cs live =
    if at == 0 then (do rest ← reset_all cs live; some (nil, rest)) else resize full at cs live

-- The calls on a column, with what the library chooses.
pub data Call : Type 0 where
  appends : Bool → Bool → ℕ → Value → Call
  reverts : Bool → ℕ → Call

pub record Memory : Type 0 where
  pub cells : Cells
  pub live : Live
  -- Where the next object goes.
  pub next : ℕ

-- A call: the value of an `append` is constructed before it.
unfoldable pub call : Call → Memory → Option Memory
call (appends full full' at v) m =
    let (val, next) = construct v m.next in
    do
      (cs, live) ← append full full' at val m.cells (owned val ++ m.live)
      some (record { cells = cs; live = live; next = next })
call (reverts full at) m = do
  (cs, live) ← revert full at m.cells m.live
  some (record m { cells = cs; live = live })

-- Some calls, and then the destructor of the column.
unfoldable pub calls : List Call → Memory → Option Memory
calls [] m = some m
calls (c ∷ cs) m = do m' ← call c m; calls cs m'

-- The destructor of the column, on a column with those cells.
unfoldable pub destroy : Memory → Option Live
destroy m = reset_all m.cells m.live
