-- ===== src/StdMap/Key.antt =====
-- The order of `std::string`: lexicographic on unsigned bytes.
use flexetl.Prelude.{◌≡◌, refl, [], ◌∷◌, compare, Ordering, arith}
use flexetl.Prelude.Words.{Bytes}

unfoldable pub compare_bytes : Bytes → Bytes → Ordering
compare_bytes [] [] = Ordering.eq
compare_bytes [] (y ∷ ys) = Ordering.lt
compare_bytes (x ∷ xs) [] = Ordering.gt
compare_bytes (x ∷ xs) (y ∷ ys) = elim (compare x y) [
  | Ordering.lt ↦ Ordering.lt
  | Ordering.eq ↦ compare_bytes xs ys
  | Ordering.gt ↦ Ordering.gt
]

-- `a < b` on strings.
abbrev pub IsLess : Bytes → Bytes → Type 0
IsLess a b = compare_bytes a b ≡ Ordering.lt

pub compare_bytes_self : (a : Bytes) → compare_bytes a a ≡ Ordering.eq
unfolding compare_bytes
compare_bytes_self [] = refl
compare_bytes_self (x ∷ xs) = ground (arith, compare_bytes_self xs)

pub eq_of_compare_bytes : (a b : Bytes) → compare_bytes a b ≡ Ordering.eq → a ≡ b
unfolding compare_bytes
eq_of_compare_bytes [] [] h = refl
eq_of_compare_bytes [] (y ∷ ys) h = ground arith
eq_of_compare_bytes (x ∷ xs) [] h = ground arith
eq_of_compare_bytes (x ∷ xs) (y ∷ ys) h = ground (arith, eq_of_compare_bytes xs ys)

pub compare_bytes-flip : (a b : Bytes) → IsLess a b → compare_bytes b a ≡ Ordering.gt
unfolding compare_bytes
compare_bytes-flip [] [] h = ground arith
compare_bytes-flip [] (y ∷ ys) h = refl
compare_bytes-flip (x ∷ xs) [] h = ground arith
compare_bytes-flip (x ∷ xs) (y ∷ ys) h = ground (arith, compare_bytes-flip xs ys)

pub lt_of_gt : (a b : Bytes) → compare_bytes a b ≡ Ordering.gt → IsLess b a
unfolding compare_bytes
lt_of_gt [] [] h = ground arith
lt_of_gt [] (y ∷ ys) h = ground arith
lt_of_gt (x ∷ xs) [] h = refl
lt_of_gt (x ∷ xs) (y ∷ ys) h = ground (arith, lt_of_gt xs ys)

pub lt_trans : (a b c : Bytes) → IsLess a b → IsLess b c → IsLess a c
unfolding compare_bytes
lt_trans [] [] c h k = k
lt_trans [] (y ∷ ys) [] h k = ground arith
lt_trans [] (y ∷ ys) (z ∷ zs) h k = refl
lt_trans (x ∷ xs) [] c h k = ground arith
lt_trans (x ∷ xs) (y ∷ ys) [] h k = ground arith
lt_trans (x ∷ xs) (y ∷ ys) (z ∷ zs) h k = ground (arith, lt_trans xs ys zs)
