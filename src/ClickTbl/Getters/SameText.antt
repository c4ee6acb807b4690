-- ===== src/ClickTbl/Getters/SameText.antt =====
-- The getters on a number and on its text.
use flexetl.Prelude.{
  ℕ, zero, suc, ◌+◌, ◌-◌, ◌/◌, ◌%◌, ◌^◌, ◌<◌, ◌≡◌, refl, ap, ◌∙◌, inl, inr, Bool-cases, [], ◌∷◌,
  ◌++◌, arith, ltb, min, ne→==,
}
use flexetl.Prelude.Words.{Bytes}
use flexetl.ClickTbl.Value.{Value, str, int, uint}
use flexetl.ClickTbl.Getters.{
  Platform, or_zero, count_dots, get_string, get_uint64, get_uint32, get_uint16, get_uint8,
}
use flexetl.ClickTbl.Getters.Decimal.{digits, show_unsigned, show_signed}
use flexetl.ClickTbl.Getters.Print.{scan_long-show_unsigned, scan_long-show_signed}

count_dots-append : (s t : Bytes) → count_dots (s ++ t) ≡ count_dots s + count_dots t
unfolding count_dots
count_dots-append [] t = omega arith
count_dots-append (b ∷ s) t = omega (arith, count_dots-append s t)

count_dots-digit : (d : ℕ) → count_dots ((48 + d) ∷ []) ≡ 0
unfolding count_dots
count_dots-digit d = rw (ne→== (48 + d) 46 (λ e. absurd (omega (arith, e)))) refl

count_dots-digits : (f n : ℕ) → count_dots (digits f n) ≡ 0
unfolding digits count_dots
count_dots-digits zero n = refl
count_dots-digits (suc f) n = elim (Bool-cases (ltb n 10)) [
  | inl e ↦ rw (digits, e) (count_dots-digit n)
  | inr e ↦
      rw (digits, e)
        (count_dots-append (digits f (n / 10)) ((48 + n % 10) ∷ [])
          ∙ omega (arith, count_dots-digits f (n / 10), count_dots-digit (n % 10)))
]

-- No number is taken for an address.
count_dots-show_signed : (n : ℕ) → count_dots (show_signed n) ≡ 0
unfolding show_signed show_unsigned count_dots
count_dots-show_signed n = elim (Bool-cases (ltb n (2 ^ 63))) [
  | inl e ↦ rw (show_signed, e) (count_dots-digits 20 n)
  | inr e ↦ rw (show_signed, e) (omega (arith, count_dots-digits 20 (2 ^ 64 - n)))
]

module _ (p : Platform) where
  -- For a signed number of 64 bits, the getters of integers of each width give the same from the
  -- number and from the text that `getString` makes of it; the widest gives the number itself.
  pub get_uint-get_string :
      (n : ℕ)
      → n < 2 ^ 64
      → let text : Value = str (get_string p (int n)) in
        (get_uint64 p text ≡ n)
        × (get_uint32 p text ≡ get_uint32 p (int n))
        × (get_uint16 p text ≡ get_uint16 p (int n))
        × (get_uint8 p text ≡ get_uint8 p (int n))
  unfolding get_string get_uint64 get_uint32 get_uint16 get_uint8
  get_uint-get_string n h =
      let read = scan_long-show_signed n h in
      let dots = count_dots-show_signed n in
      (ap or_zero read, rw (dots, read) refl, rw read (omega arith), rw read (omega arith))

  -- For an unsigned number of 64 bits, `getUInt64` gives the number back from its text if it is below
  -- 2 ^ 63, and 2 ^ 63 - 1 if it is not.
  pub get_uint64-get_string :
      (n : ℕ) → n < 2 ^ 64 → get_uint64 p (str (get_string p (uint n))) ≡ min n (2 ^ 63 - 1)
  unfolding get_string get_uint64
  get_uint64-get_string n h = ap or_zero (scan_long-show_unsigned n h)
