-- ===== src/ClickTbl/Encoding/Restore.antt =====
-- `restoreValue` reads back what `storeValue` wrote, up to what a C string can hold.
use flexetl.Prelude.{
  ℕ, zero, suc, ◌-◌, ◌%◌, ◌^◌, ◌≤◌, ◌<◌, ◌≡◌, refl, ap, sym, subst, some, [], ◌∷◌, ◌++◌, append-nil,
  arith, length, length-append, Bool, true, false, ne→==,
}
use flexetl.Prelude.Words.{Bytes, to_le}
use flexetl.Result.{
  Error, fread_word, for_rounds, read_type_failed, read_value_failed, read_array_length_failed,
}
use flexetl.ClickTbl.Value.{
  Value, Values, ClickType, unknown, str, int, uint, double, array, bool, nil, cons, size,
  emplace_back, append_values, append-emplace_back, append-nil_values,
}
use flexetl.ClickTbl.Int32.{int32_small}
use flexetl.ClickTbl.Save.{bool_byte}
use flexetl.ClickTbl.Load.{
  type_of_code, c_string, restore_sized, restore_text, push, bool_of, restore_as, restore_value,
}
use flexetl.ClickTbl.Encoding.{int_bytes, encode_text, encode, encode_all, FitsText, Fits, FitsAll}
use flexetl.ClickTbl.Encoding.Reads.{
  Reads, Reads-pure, Reads-bind, Reads-map, Reads-fread, Reads-fread_word,
}

-- A value whose strings end at their first zero byte.
unfoldable mutual
  pub cut : Value → Value
  cut unknown = unknown
  cut (str s) = str (c_string s)
  cut (int n) = int n
  cut (uint n) = uint n
  cut (double n) = double n
  cut (array vs) = array (cut_all vs)
  cut (bool b) = bool b

  pub cut_all : Values → Values
  cut_all nil = nil
  cut_all (cons v vs) = cons (cut v) (cut_all vs)

pub Reads-int : (n : ℕ) (e : Error) → n < 2 ^ 32 → Reads (fread_word 4 e) (int_bytes n) n
Reads-int n e h =
    let w : n % 2 ^ 32 ≡ n = omega arith in
    subst (λ m. Reads (fread_word 4 e) (int_bytes n) m) w
      (Reads-fread_word 4 (n % 2 ^ 32) e (omega arith))

pub restore_text-Reads :
    (s : Bytes) (e e' : Error) → FitsText s → Reads (restore_text e e') (encode_text s) (c_string s)
unfolding restore_text restore_sized
restore_text-Reads s e e' h = Reads-bind _ (Reads-int (length s) e (omega arith)) (
    rw (int32_small (length s) (omega arith)) (
      rw (ne→== (length s) (2 ^ 31 - 1) (omega arith))
        (Reads-map _ (Reads-fread (length s) e' s refl) (Reads-pure (c_string s)))))

-- The type first, then its case.
restore_value-Reads :
    (f : ℕ) (vs : Values) (c : ℕ) (ty : ClickType) {ys : Bytes} {b : Value}
    → c < 7
    → type_of_code c ≡ some ty
    → Reads (restore_as (some ty) (restore_value f) (array vs)) ys b
    → Reads (restore_value (suc f) (array vs)) (int_bytes c ++ ys) b
unfolding restore_value
restore_value-Reads f vs c ty h e r =
    Reads-bind _ (Reads-int c read_type_failed (omega arith)) (rw e r)

push-Reads : (vs : Values) (v : Value) → Reads (push (array vs) v) [] (array (emplace_back vs v))
unfolding push
push-Reads vs v = Reads-pure _

bool_of-Reads : (b : Bool) → Reads (bool_of (bool_byte b)) [] b
unfolding bool_of
bool_of-Reads true = Reads-pure true
bool_of-Reads false = Reads-pure false

bool_byte-lt : (b : Bool) → bool_byte b < 256
bool_byte-lt true = omega arith
bool_byte-lt false = omega arith

byte_bytes : (b : Bool) → to_le 1 (bool_byte b) ≡ bool_byte b ∷ []
unfolding to_le
byte_bytes true = refl
byte_bytes false = refl

module _ (f : ℕ) (vs : Values) where
  array-Reads :
      (ws us : Values)
      → size ws < 2 ^ 31
      → Reads (for_rounds (size ws) (restore_value f) (array nil)) (encode_all ws) (array us)
      → Reads
          (restore_as (some ClickType.array) (restore_value f) (array vs))
          (int_bytes (size ws) ++ encode_all ws)
          (array (emplace_back vs (array us)))
  unfolding restore_as
  array-Reads ws us h r =
      Reads-bind _ (Reads-int (size ws) read_array_length_failed (omega arith))
        (rw (int32_small (size ws) h) (Reads-map _ r (push-Reads vs (array us))))

  bool-Reads :
      (b : Bool)
      → Reads
          (restore_as (some ClickType.bool) (restore_value f) (array vs))
          (bool_byte b ∷ [])
          (array (emplace_back vs (bool b)))
  unfolding restore_as
  bool-Reads b = rw (← byte_bytes b) (
      Reads-map _ (Reads-fread_word 1 (bool_byte b) read_value_failed (bool_byte-lt b))
        (Reads-map _ (bool_of-Reads b) (push-Reads vs (bool b))))

  str-Reads :
      (s : Bytes)
      → FitsText s
      → Reads
          (restore_as (some ClickType.str) (restore_value f) (array vs))
          (encode_text s)
          (array (emplace_back vs (str (c_string s))))
  unfolding restore_as
  str-Reads s h = Reads-map _ (restore_text-Reads s _ _ h) (push-Reads vs (str (c_string s)))

  unknown-Reads :
      Reads
        (restore_as (some ClickType.unknown) (restore_value f) (array vs))
        []
        (array (emplace_back vs unknown))
  unfolding restore_as
  unknown-Reads = push-Reads vs unknown

  int-Reads :
      (n : ℕ)
      → n < 2 ^ 64
      → Reads
          (restore_as (some ClickType.int) (restore_value f) (array vs))
          (to_le 8 n)
          (array (emplace_back vs (int n)))
  unfolding restore_as
  int-Reads n h = Reads-map _ (Reads-fread_word 8 n read_value_failed h) (push-Reads vs (int n))

  uint-Reads :
      (n : ℕ)
      → n < 2 ^ 64
      → Reads
          (restore_as (some ClickType.uint) (restore_value f) (array vs))
          (to_le 8 n)
          (array (emplace_back vs (uint n)))
  unfolding restore_as
  uint-Reads n h = Reads-map _ (Reads-fread_word 8 n read_value_failed h) (push-Reads vs (uint n))

  double-Reads :
      (n : ℕ)
      → n < 2 ^ 64
      → Reads
          (restore_as (some ClickType.double) (restore_value f) (array vs))
          (to_le 8 n)
          (array (emplace_back vs (double n)))
  unfolding restore_as
  double-Reads n h =
      Reads-map _ (Reads-fread_word 8 n read_value_failed h) (push-Reads vs (double n))

  -- No round of the loop over the items is left.
  done-Reads : Reads (for_rounds (size nil) (restore_value f) (array vs)) [] (array vs)
  unfolding for_rounds
  done-Reads = Reads-pure (array vs)

  -- One round of it.
  round-Reads :
      (w : Value) (ws : Values) {x y : Value} {xs ys : Bytes}
      → Reads (restore_value f (array vs)) xs x
      → Reads (for_rounds (size ws) (restore_value f) x) ys y
      → Reads (for_rounds (size (cons w ws)) (restore_value f) (array vs)) (xs ++ ys) y
  unfolding for_rounds
  round-Reads w ws p q = Reads-bind _ p q

abbrev pub ValueReads : Value → Type 0
ValueReads v =
    (f : ℕ) (vs : Values)
    → Fits v
    → length (encode v) ≤ f
    → Reads (restore_value f (array vs)) (encode v) (array (emplace_back vs (cut v)))

abbrev pub ValuesReads : Values → Type 0
ValuesReads ws =
    (f : ℕ) (vs : Values)
    → FitsAll ws
    → length (encode_all ws) ≤ f
    → Reads (for_rounds (size ws) (restore_value f) (array vs)) (encode_all ws)
        (array (append_values vs (cut_all ws)))

-- One case of `storeValue` is read back by one step of `restoreValue`.
step-Reads :
    (v w : Value) (c : ℕ) (ty : ClickType) (ys : Bytes)
    → c < 7
    → type_of_code c ≡ some ty
    → encode v ≡ int_bytes c ++ ys
    → cut v ≡ w
    → ((f : ℕ) (vs : Values)
        → Fits v
        → length ys ≤ f
        → Reads (restore_as (some ty) (restore_value f) (array vs)) ys (array (emplace_back vs w)))
    → ValueReads v
unfolding to_le
step-Reads v w c ty ys h e p q k zero vs fits l = absurd (omega (arith, ap length p))
step-Reads v w c ty ys h e p q k (suc f) vs fits l =
    rw (p, q) (restore_value-Reads f vs c ty h e (k f vs fits (omega (arith, ap length p))))

mutual
  unfolding encode cut type_of_code append_values

  pub value-Reads : (v : Value) → ValueReads v
  value-Reads unknown =
      step-Reads unknown unknown 0 ClickType.unknown [] (omega arith) refl (sym (append-nil _)) refl
        λ f vs _ _. unknown-Reads f vs
  value-Reads (str s) =
      step-Reads (str s) _ 1 ClickType.str _ (omega arith) refl refl refl
        λ f vs h _. str-Reads f vs s h
  value-Reads (int n) =
      step-Reads (int n) _ 2 ClickType.int _ (omega arith) refl refl refl
        λ f vs h _. int-Reads f vs n h
  value-Reads (uint n) =
      step-Reads (uint n) _ 3 ClickType.uint _ (omega arith) refl refl refl
        λ f vs h _. uint-Reads f vs n h
  value-Reads (double n) =
      step-Reads (double n) _ 4 ClickType.double _ (omega arith) refl refl refl
        λ f vs h _. double-Reads f vs n h
  value-Reads (array ws) =
      step-Reads (array ws) _ 5 ClickType.array _ (omega arith) refl refl refl λ f vs h l.
        array-Reads f vs ws _ h.0 (
          values-Reads ws f nil h.1
            (omega (arith, length-append (int_bytes (size ws)) (encode_all ws))))
  value-Reads (bool b) =
      step-Reads (bool b) _ 6 ClickType.bool _ (omega arith) refl refl refl
        λ f vs _ _. bool-Reads f vs b

  pub values-Reads : (ws : Values) → ValuesReads ws
  values-Reads nil f vs h l = rw (append-nil_values vs) (done-Reads f vs)
  values-Reads (cons w ws) f vs h l = rw (← append-emplace_back vs (cut w) (cut_all ws)) (
      round-Reads f vs w ws
        (value-Reads w f vs h.0 (omega (arith, length-append (encode w) (encode_all ws))))
        (values-Reads ws f _ h.1 (omega (arith, length-append (encode w) (encode_all ws)))))
