-- ===== src/ClickTbl/Value.antt =====
-- src/flexetl/clicktbl.h and clicktbl.inl: `ClickType`, `Value` and `std::vector<Value>`.
-- A number is kept as its 64-bit pattern: two's complement under `int`, IEEE 754 under `double`.
-- A string is its bytes.
use flexetl.Prelude.{
  ℕ, zero, suc, ◌+◌, ◌-◌, ◌^◌, ◌≤◌, ◌<◌, ◌≡◌, refl, ap, Bool, Option, none, some, arith,
}
use flexetl.Prelude.Int.{ℤ, pos, negsuc}
use flexetl.Prelude.Words.{Bytes}

-- `enum ClickType`; a value of type `unknown` is a null.
pub data ClickType : Type 0 where
  unknown str int uint double array bool : ClickType

-- The numbers that the compiler gives to the enumerators.
unfoldable pub type_code : ClickType → ℕ
type_code unknown = 0
type_code str = 1
type_code int = 2
type_code uint = 3
type_code double = 4
type_code array = 5
type_code bool = 6

-- `Value`: the tag and the member of the union that it selects. `Values` is a vector of them.
mutual
  pub data Value : Type 0 where
    unknown : Value
    str : Bytes → Value
    int uint double : ℕ → Value
    array : Values → Value
    bool : Bool → Value

  pub data Values : Type 0 where
    nil : Values
    cons : Value → Values → Values

-- `Value::type()`
unfoldable pub type_of : Value → ClickType
type_of unknown = ClickType.unknown
type_of (str s) = ClickType.str
type_of (int n) = ClickType.int
type_of (uint n) = ClickType.uint
type_of (double n) = ClickType.double
type_of (array vs) = ClickType.array
type_of (bool b) = ClickType.bool

-- `Value(T val)` for a signed integer that fits 64 bits: its two's complement.
unfoldable pub of_int : ℤ → Value
of_int (pos n) = int n
of_int (negsuc n) = int (2 ^ 64 - 1 - n)

-- The vector's operations.
abbrev pub size : Values → ℕ
size nil = 0
size (cons v vs) = suc (size vs)

unfoldable pub emplace_back : Values → Value → Values
emplace_back nil w = cons w nil
emplace_back (cons v vs) w = cons v (emplace_back vs w)

-- `resize(n)`: what is missing becomes `Value()`.
unfoldable pub resize : ℕ → Values → Values
resize zero vs = nil
resize (suc n) nil = cons unknown (resize n nil)
resize (suc n) (cons v vs) = cons v (resize n vs)

unfoldable pub get_elem? : Values → ℕ → Option Value
get_elem? nil i = none
get_elem? (cons v vs) zero = some v
get_elem? (cons v vs) (suc i) = get_elem? vs i

-- The item at an index, and a null past the end.
abbrev pub read : Values → ℕ → Value
read nil i = unknown
read (cons v vs) zero = v
read (cons v vs) (suc i) = read vs i

pub size-resize : (n : ℕ) (vs : Values) → size (resize n vs) ≡ n
unfolding resize
size-resize zero vs = refl
size-resize (suc n) nil = ap suc (size-resize n nil)
size-resize (suc n) (cons v vs) = ap suc (size-resize n vs)

pub size-emplace_back : (vs : Values) (w : Value) → size (emplace_back vs w) ≡ size vs + 1
unfolding emplace_back
size-emplace_back nil w = omega arith
size-emplace_back (cons v vs) w = omega (arith, size-emplace_back vs w)

pub resize_self : (n : ℕ) (vs : Values) → size vs ≡ n → resize n vs ≡ vs
unfolding resize
resize_self zero nil h = refl
resize_self zero (cons v vs) h = absurd (omega arith)
resize_self (suc n) nil h = absurd (omega arith)
resize_self (suc n) (cons v vs) h = ap (cons v) (resize_self n vs (omega arith))

-- One more item past the size does not show in the resized vector.
pub resize-emplace_back :
    (n : ℕ) (vs : Values) (w : Value) → n ≤ size vs → resize n (emplace_back vs w) ≡ resize n vs
unfolding resize emplace_back
resize-emplace_back zero vs w h = refl
resize-emplace_back (suc n) nil w h = absurd (omega arith)
resize-emplace_back (suc n) (cons v vs) w h = ap (cons v) (resize-emplace_back n vs w (omega arith))

-- Growing by one adds a null at the end.
pub resize-suc :
    (n : ℕ) (vs : Values) → size vs ≤ n → resize (suc n) vs ≡ emplace_back (resize n vs) unknown
unfolding resize emplace_back
resize-suc zero nil h = refl
resize-suc zero (cons v vs) h = absurd (omega arith)
resize-suc (suc n) nil h = ap (cons unknown) (resize-suc n nil (omega arith))
resize-suc (suc n) (cons v vs) h = ap (cons v) (resize-suc n vs (omega arith))

-- Growing in two steps is growing at once.
pub resize-resize :
    (n m : ℕ) (vs : Values) → size vs ≤ m → m ≤ n → resize n (resize m vs) ≡ resize n vs
unfolding resize
resize-resize n zero nil h k = refl
resize-resize n zero (cons v vs) h k = absurd (omega arith)
resize-resize zero (suc m) vs h k = absurd (omega arith)
resize-resize (suc n) (suc m) nil h k =
    ap (cons unknown) (resize-resize n m nil (omega arith) (omega arith))
resize-resize (suc n) (suc m) (cons v vs) h k =
    ap (cons v) (resize-resize n m vs (omega arith) (omega arith))

-- Padding with nulls does not change what is read.
pub read-resize : (n i : ℕ) (vs : Values) → size vs ≤ n → read (resize n vs) i ≡ read vs i
unfolding resize
read-resize zero i nil h = refl
read-resize zero i (cons v vs) h = absurd (omega arith)
read-resize (suc n) zero nil h = refl
read-resize (suc n) (suc i) nil h = read-resize n i nil (omega arith)
read-resize (suc n) zero (cons v vs) h = refl
read-resize (suc n) (suc i) (cons v vs) h = read-resize n i vs (omega arith)

-- Below its new size a resized vector has the old items.
pub read-resize_lt : (n i : ℕ) (vs : Values) → i < n → read (resize n vs) i ≡ read vs i
unfolding resize
read-resize_lt zero i vs h = absurd (omega arith)
read-resize_lt (suc n) zero nil h = refl
read-resize_lt (suc n) (suc i) nil h = read-resize_lt n i nil (omega arith)
read-resize_lt (suc n) zero (cons v vs) h = refl
read-resize_lt (suc n) (suc i) (cons v vs) h = read-resize_lt n i vs (omega arith)

pub read-emplace_back_lt :
    (vs : Values) (w : Value) (i : ℕ) → i < size vs → read (emplace_back vs w) i ≡ read vs i
unfolding emplace_back
read-emplace_back_lt nil w i h = absurd (omega arith)
read-emplace_back_lt (cons v vs) w zero h = refl
read-emplace_back_lt (cons v vs) w (suc i) h = read-emplace_back_lt vs w i (omega arith)

pub read-emplace_back_last :
    (vs : Values) (w : Value) (i : ℕ) → size vs ≡ i → read (emplace_back vs w) i ≡ w
unfolding emplace_back
read-emplace_back_last nil w zero h = refl
read-emplace_back_last nil w (suc i) h = absurd (omega arith)
read-emplace_back_last (cons v vs) w zero h = absurd (omega arith)
read-emplace_back_last (cons v vs) w (suc i) h = read-emplace_back_last vs w i (omega arith)

-- Nothing is stored past the end.
pub read_past : (vs : Values) (i : ℕ) → size vs ≤ i → read vs i ≡ unknown
read_past nil i h = refl
read_past (cons v vs) zero h = absurd (omega arith)
read_past (cons v vs) (suc i) h = read_past vs i (omega arith)

-- `vs` followed by `ws`.
unfoldable pub append_values : Values → Values → Values
append_values nil ws = ws
append_values (cons v vs) ws = cons v (append_values vs ws)

pub append-emplace_back :
    (vs : Values) (v : Value) (ws : Values)
    → append_values (emplace_back vs v) ws ≡ append_values vs (cons v ws)
unfolding append_values emplace_back
append-emplace_back nil v ws = refl
append-emplace_back (cons w vs) v ws = ap (cons w) (append-emplace_back vs v ws)

pub append-nil_values : (vs : Values) → append_values vs nil ≡ vs
unfolding append_values
append-nil_values nil = refl
append-nil_values (cons v vs) = ap (cons v) (append-nil_values vs)
