-- ===== src/ClickTbl/Fuel.antt =====
-- The fuel of `load` is enough for every file, and more of it changes nothing.
use flexetl.Prelude.{
  ℕ, zero, suc, ◌+◌, ◌-◌, ◌≤◌, ◌<◌, ◌≡◌, refl, ap, Option, none, some, arith, length, length-drop,
  Bool, true, false, ltb, ◌≢◌, Bool-cases, inl, inr, ◌==◌, ◌^◌,
}
use flexetl.Prelude.Int.{ℤ, pos, negsuc}
use flexetl.Prelude.Words.{Bytes}
use flexetl.Result
use flexetl.Result.{
  Result, Error, Reader, ok, throws, fault, out_of_fuel, pure, require, fread, fread_word,
  for_rounds, ◌>>=◌, ◌>>◌, invalid_key, invalid_mask,
}
use flexetl.StdMap.{Map}
use flexetl.ClickTbl.Value.{Value, ClickType, array, nil}
use flexetl.ClickTbl.Column.{ClickColumn}
use flexetl.ClickTbl.Table.{ClickTable}
use flexetl.ClickTbl.Int32.{int32, rounds}
use flexetl.ClickTbl.Save.{file_key, file_mask}
use flexetl.ClickTbl.Load.{
  type_of_code, c_string, restore_sized, restore_text, push, bool_of, restore_as, is_array,
  restore_value, reserve, load_column, load_table, recover, load,
}

-- Both runs end alike, within the fuel, and leave at most `m` bytes.
abbrev pub Alike : {A : Type 0} → ℕ → Result (A × Bytes) → Result (A × Bytes) → Type 0
Alike m (ok (a, rest)) y = (length rest ≤ m) × (y ≡ ok (a, rest))
Alike m (throws e) y = y ≡ throws e
Alike m fault y = y ≡ fault
Alike m out_of_fuel y = ⊥

-- Two readers that run alike on every input of at most `n` bytes.
abbrev Agree : {A : Type 0} → ℕ → Reader A → Reader A → Type 0
Agree n r r' = (bs : Bytes) → length bs ≤ n → Alike (length bs) (r bs) (r' bs)

eq_of_Alike : {A : Type 0} (m : ℕ) (x y : Result (A × Bytes)) → Alike m x y → y ≡ x
eq_of_Alike m (ok a) y h = h.1
eq_of_Alike m (throws e) y h = h
eq_of_Alike m fault y h = h
eq_of_Alike m out_of_fuel y h = absurd h

weaken : {A : Type 0} (m n : ℕ) (x y : Result (A × Bytes)) → m ≤ n → Alike m x y → Alike n x y
weaken m n (ok (a, rest)) y h k = (omega arith, k.1)
weaken m n (throws e) y h k = k
weaken m n fault y h k = k
weaken m n out_of_fuel y h k = k

module _ {A B : Type 0} where
  bind-Alike :
      (m n : ℕ) (x y : Result (A × Bytes)) (k k' : A → Reader B)
      → Alike m x y
      → ((a : A) (rest : Bytes) → length rest ≤ m → Alike n (k a rest) (k' a rest))
      → Alike n (Result.bind x λ (a, rest). k a rest) (Result.bind y λ (a, rest). k' a rest)
  bind-Alike m n (ok (a, rest)) y k k' h next = rw h.1 (next a rest h.0)
  bind-Alike m n (throws e) y k k' h next = rw h
  bind-Alike m n fault y k k' h next = rw h
  bind-Alike m n out_of_fuel y k k' h next = absurd h

  -- The next step starts with no more bytes than this one.
  bind-Agree :
      (n : ℕ) (r r' : Reader A) (k k' : A → Reader B)
      → Agree n r r'
      → ((a : A) → Agree n (k a) (k' a))
      → Agree n (r >>= k) (r' >>= k')
  bind-Agree n r r' k k' h next bs l =
      bind-Alike (length bs) (length bs) (r bs) (r' bs) k k' (h bs l)
        λ a rest shorter. weaken (length rest) (length bs) _ _ shorter (next a rest (omega arith))

pure-Agree : {A : Type 0} (n : ℕ) (a : A) → Agree n (pure a) (pure a)
pure-Agree n a bs l = (omega arith, refl)

fread-Alike : (n : ℕ) (e : Error) (bs : Bytes) → Alike (length bs - n) (fread n e bs) (fread n e bs)
unfolding fread
fread-Alike n e bs = elim (Bool-cases (ltb (length bs) n)) [
  | inl short ↦ rw short
  | inr long ↦ rw long (omega (arith, length-drop n bs), refl)
]

fread_word_short :
    (n : ℕ) (e : Error) (bs : Bytes) → ltb (length bs) n ≡ true → fread_word n e bs ≡ throws e
unfolding fread_word fread
fread_word_short n e bs h = rw h

fread_word-Alike :
    (n : ℕ) (e : Error) (bs : Bytes) → Alike (length bs - n) (fread_word n e bs) (fread_word n e bs)
unfolding fread_word
fread_word-Alike n e bs =
    bind-Alike (length bs - n) (length bs - n) _ _ _ _ (fread-Alike n e bs)
      λ a rest shorter. (shorter, refl)

fread_word-Agree : (m n : ℕ) (e : Error) → Agree m (fread_word n e) (fread_word n e)
fread_word-Agree m n e bs l = weaken _ _ _ _ (omega arith) (fread_word-Alike n e bs)

fread-Agree : (m n : ℕ) (e : Error) → Agree m (fread n e) (fread n e)
fread-Agree m n e bs l = weaken _ _ _ _ (omega arith) (fread-Alike n e bs)

for_rounds-Agree :
    {S : Type 0} (n k : ℕ) (body body' : S → Reader S)
    → ((s : S) → Agree n (body s) (body' s))
    → (s : S) → Agree n (for_rounds k body s) (for_rounds k body' s)
unfolding for_rounds
for_rounds-Agree n zero body body' h s = pure-Agree n s
for_rounds-Agree n (suc k) body body' h s =
    bind-Agree n _ _ _ _ (h s) λ s'. for_rounds-Agree n k body body' h s'

push-Agree : (n : ℕ) (value v : Value) → Agree n (push value v) (push value v)
unfolding push
push-Agree n (array vs) v bs l = (omega arith, refl)
push-Agree n _ v bs l = refl

bool_of-Agree : (n b : ℕ) → Agree n (bool_of b) (bool_of b)
unfolding bool_of
bool_of-Agree n zero bs l = (omega arith, refl)
bool_of-Agree n (suc zero) bs l = (omega arith, refl)
bool_of-Agree n (suc (suc b)) bs l = refl

restore_sized-Agree : (n : ℕ) (z : ℤ) (e : Error) → Agree n (restore_sized z e) (restore_sized z e)
unfolding restore_sized
restore_sized-Agree n (negsuc m) e bs l = refl
restore_sized-Agree n (pos m) e bs l = elim (Bool-cases (m == 2 ^ 31 - 1)) [
  | inl top ↦ rw top refl
  | inr less ↦
      rw less (bind-Agree n _ _ _ _ (fread-Agree n m e) (λ s. pure-Agree n (c_string s)) bs l)
]

reserve-Agree : (n : ℕ) (z : ℤ) → Agree n (reserve z) (reserve z)
unfolding reserve
reserve-Agree n (pos m) bs l = (omega arith, refl)
reserve-Agree n (negsuc m) bs l = refl

require-Agree : (n : ℕ) (b : Bool) (e : Error) → Agree n (require b e) (require b e)
require-Agree n true e bs l = (omega arith, refl)
require-Agree n false e bs l = refl

restore_text-Agree : (n : ℕ) (e e' : Error) → Agree n (restore_text e e') (restore_text e e')
unfolding restore_text
restore_text-Agree n e e' =
    bind-Agree n _ _ _ _ (fread_word-Agree n 4 e) λ w. restore_sized-Agree n (int32 w) e'

-- The cases of `restoreValue`, over two calls for the items that agree.
restore_as-Agree :
    (n : ℕ) (ty : Option ClickType) (r r' : Value → Reader Value) (value : Value)
    → ((v : Value) → Agree n (r v) (r' v))
    → Agree n (restore_as ty r value) (restore_as ty r' value)
unfolding restore_as
restore_as-Agree n none r r' value h = λ bs l. refl
restore_as-Agree n (some ClickType.unknown) r r' value h = push-Agree n value _
restore_as-Agree n (some ClickType.str) r r' value h =
    bind-Agree n _ _ _ _ (restore_text-Agree n _ _) λ s. push-Agree n value _
restore_as-Agree n (some ClickType.int) r r' value h =
    bind-Agree n _ _ _ _ (fread_word-Agree n 8 _) λ m. push-Agree n value _
restore_as-Agree n (some ClickType.uint) r r' value h =
    bind-Agree n _ _ _ _ (fread_word-Agree n 8 _) λ m. push-Agree n value _
restore_as-Agree n (some ClickType.double) r r' value h =
    bind-Agree n _ _ _ _ (fread_word-Agree n 8 _) λ m. push-Agree n value _
restore_as-Agree n (some ClickType.array) r r' value h =
    bind-Agree n _ _ _ _ (fread_word-Agree n 4 _) λ w.
      bind-Agree n _ _ _ _ (for_rounds-Agree n (rounds (int32 w)) r r' h (array nil))
        λ val. push-Agree n value val
restore_as-Agree n (some ClickType.bool) r r' value h =
    bind-Agree n _ _ _ _ (fread_word-Agree n 1 _)
      λ m. bind-Agree n _ _ _ _ (bool_of-Agree n m) λ b. push-Agree n value _

-- A call reads its type first, so the calls for its items start with fewer bytes.
restore_value-Agree :
    (f f' n : ℕ) (value : Value)
    → n < f
    → n < f'
    → Agree n (restore_value f value) (restore_value f' value)
unfolding restore_value
restore_value-Agree zero f' n value h h' bs l = absurd (omega arith)
restore_value-Agree (suc f) zero n value h h' bs l = absurd (omega arith)
restore_value-Agree (suc f) (suc f') n value h h' bs l = elim (Bool-cases (is_array value)) [
  | inr other ↦ rw other refl
  | inl ready ↦ rw ready (elim (Bool-cases (ltb (length bs) 4)) [
    | inl short ↦ rw (fread_word_short 4 _ bs short) refl
    | inr long ↦
        bind-Alike (length bs - 4) (length bs) _ _ _ _ (fread_word-Alike 4 _ bs)
          λ code rest shorter. weaken (length rest) (length bs) _ _ (omega arith) (
            restore_as-Agree (n - 4) (type_of_code code) _ _ value
              (λ v. restore_value-Agree f f' (n - 4) v (ground arith) (ground arith)) rest
              (omega arith))
  ])
]

load_column-Agree :
    (f f' n : ℕ) (z : ℤ) (m : Map ClickColumn)
    → n < f
    → n < f'
    → Agree n (load_column f z m) (load_column f' z m)
unfolding load_column
load_column-Agree f f' n z m h h' = bind-Agree n _ _ _ _ (restore_text-Agree n _ _) λ name.
    bind-Agree n _ _ _ _ (reserve-Agree n z) λ _.
      bind-Agree n _ _ _ _
        (for_rounds-Agree n (rounds z) _ _ (λ v. restore_value-Agree f f' n v h h') _)
        λ col. pure-Agree n _

load_table-Agree :
    (f f' n : ℕ) (t : ClickTable) → n < f → n < f' → Agree n (load_table f t) (load_table f' t)
unfolding load_table
load_table-Agree f f' n t h h' = bind-Agree n _ _ _ _ (fread_word-Agree n 4 _) λ key.
    bind-Agree n _ _ _ _ (fread_word-Agree n 4 _) λ mask.
      bind-Agree n (require (key == file_key) invalid_key) _ _ _ (require-Agree n _ _) λ _.
        bind-Agree n (require (mask == file_mask) invalid_mask) _ _ _ (require-Agree n _ _) λ _.
          bind-Agree n _ _ _ _ (fread_word-Agree n 4 _) λ column_count.
            bind-Agree n _ _ _ _ (fread_word-Agree n 4 _) λ row_count.
              bind-Agree n _ _ _ _
                (for_rounds-Agree n (rounds (int32 column_count)) _ _
                  (λ m. load_column-Agree f f' n (int32 row_count) m h h') t.tbl)
                λ m. pure-Agree n _

-- Any two amounts of fuel above the length of the file give the same, and never run out.
pub load_table-Alike :
    (f f' : ℕ) (t : ClickTable) (bs : Bytes)
    → length bs < f
    → length bs < f'
    → Alike (length bs) (load_table f t bs) (load_table f' t bs)
load_table-Alike f f' t bs h h' = load_table-Agree f f' (length bs) t h h' bs (omega arith)

not_out_of_fuel :
    (m : ℕ) (t : ClickTable) (x y : Result (ClickTable × Bytes))
    → Alike m x y
    → (recover t x).1 ≢ out_of_fuel
unfolding recover
not_out_of_fuel m t (ok a) y h e = cc
not_out_of_fuel m t (throws a) y h e = cc
not_out_of_fuel m t fault y h e = cc
not_out_of_fuel m t out_of_fuel y h e = h

-- Whatever the file holds, `load` ends within the fuel that it is given.
pub load-ne-out_of_fuel : (file : Option Bytes) (t : ClickTable) → (load file t).1 ≢ out_of_fuel
unfolding load
load-ne-out_of_fuel none t e = cc
load-ne-out_of_fuel (some bs) t e =
    not_out_of_fuel (length bs) t _ _
      (load_table-Alike (length bs + 1) (length bs + 1) t bs (omega arith) (omega arith)) e

-- What `load` does is what its `try` does with any amount of fuel above the length of the file.
pub load-load_table :
    (f : ℕ) (t : ClickTable) (bs : Bytes)
    → length bs < f
    → load (some bs) t ≡ recover t (load_table f t bs)
unfolding load
load-load_table f t bs h =
    ap (recover t) (eq_of_Alike _ _ _ (load_table-Alike f (length bs + 1) t bs h (omega arith)))
