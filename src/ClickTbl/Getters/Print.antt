-- ===== src/ClickTbl/Getters/Print.antt =====
-- A number that is printed and read again.
use flexetl.Prelude.{
  ℕ, zero, suc, ◌+◌, ◌-◌, ◌*◌, ◌/◌, ◌%◌, ◌^◌, ◌≤◌, ◌<◌, ◌≡◌, refl, sym, ap, ◌∙◌, Bool, true, false,
  [], ◌∷◌, ◌++◌, some, arith, inl, inr, Bool-cases, ltb→lt, lt→ltb, ge→ltb, ne→==, ltb, min,
  append-nil, append_assoc,
}
use flexetl.Prelude.Words.{Bytes}
use native.Mathlib.Nat.{pow-suc}
use flexetl.ClickTbl.Load.{c_string}
use flexetl.ClickTbl.Getters.Scan.{
  is_space, skip_spaces, digit_of, scan_digits, scan_number, scan_sign, signed_64, read_signed,
  scan_long,
}
use flexetl.ClickTbl.Getters.Decimal.{digits, show_unsigned, show_signed}

digit_of-digit : (d : ℕ) → d < 10 → digit_of 10 (48 + d) ≡ some d
unfolding digit_of
digit_of-digit d h = ground arith

is_space-digit : (d : ℕ) → d < 10 → is_space (48 + d) ≡ false
unfolding is_space
is_space-digit d h = ground arith

scan_digits-digit :
    (d : ℕ) (s : Bytes) (n : ℕ)
    → d < 10
    → scan_digits 10 ((48 + d) ∷ s) n ≡ scan_digits 10 s (n * 10 + d)
unfolding scan_digits
scan_digits-digit d s n h = rw (scan_digits, digit_of-digit d h) refl

last_digit : (n : ℕ) → n % 10 < 10
last_digit n = omega arith

pub digits_small : (f n : ℕ) → n < 10 → digits (suc f) n ≡ (48 + n) ∷ []
unfolding digits
digits_small f n h = rw (digits, lt→ltb n 10 h) refl

pub digits_large : (f n : ℕ) → 10 ≤ n → digits (suc f) n ≡ digits f (n / 10) ++ (48 + n % 10) ∷ []
unfolding digits
digits_large f n h = rw (digits, ge→ltb n 10 h) refl

-- A number of at most so many digits is read back from them.
scan_digits-small :
    (f n : ℕ) (rest : Bytes)
    → n < 10
    → scan_digits 10 (digits (suc f) n ++ rest) 0 ≡ scan_digits 10 rest n
scan_digits-small f n rest h =
    let same : 0 * 10 + n ≡ n = omega arith in
    rw (digits_small f n h)
      (scan_digits-digit n rest 0 h ∙ ap (λ (m : ℕ). scan_digits 10 rest m) same)

scan_digits-digits :
    (f n : ℕ) (rest : Bytes)
    → n < 10 ^ suc f
    → scan_digits 10 (digits (suc f) n ++ rest) 0 ≡ scan_digits 10 rest n
scan_digits-digits zero n rest h = scan_digits-small zero n rest (omega arith)
scan_digits-digits (suc f) n rest h = elim (Bool-cases (ltb n 10)) [
  | inl e ↦ scan_digits-small (suc f) n rest (ltb→lt n 10 e)
  | inr e ↦
      let last = (48 + n % 10) ∷ [] in
      let tens : n / 10 < 10 ^ suc f = omega (arith, pow-suc 10 (suc f)) in
      let joined : digits (suc (suc f)) n ++ rest ≡ digits (suc f) (n / 10) ++ (last ++ rest) =
        ap (λ (s : Bytes). s ++ rest) (digits_large (suc f) n (ground arith))
        ∙ append_assoc (digits (suc f) (n / 10)) last rest in
      let whole : n / 10 * 10 + n % 10 ≡ n = omega arith in
      ap (λ (s : Bytes). scan_digits 10 s 0) joined
      ∙ scan_digits-digits f (n / 10) (last ++ rest) tens
      ∙ scan_digits-digit (n % 10) rest (n / 10) (last_digit n)
      ∙ ap (λ (m : ℕ). scan_digits 10 rest m) whole
]

-- The digits of a number begin with one, and none of them is a zero byte.
digits_head :
    (f n : ℕ)
    → n < 10 ^ suc f
    → (d : ℕ) × (s : Bytes) × (d < 10) × (digits (suc f) n ≡ (48 + d) ∷ s)
digits_head zero n h = (n, [], omega arith, digits_small zero n (omega arith))
digits_head (suc f) n h = elim (Bool-cases (ltb n 10)) [
  | inl e ↦ (n, [], ltb→lt n 10 e, digits_small (suc f) n (ltb→lt n 10 e))
  | inr e ↦
      let last = (48 + n % 10) ∷ [] in
      let (d, s, low, begins) = digits_head f (n / 10) (omega (arith, pow-suc 10 (suc f))) in
      (
        d,
        s ++ last,
        low,
        digits_large (suc f) n (ground arith) ∙ ap (λ (t : Bytes). t ++ last) begins,
      )
]

c_string-digit : (d : ℕ) (s : Bytes) → d < 10 → c_string ((48 + d) ∷ s) ≡ (48 + d) ∷ c_string s
unfolding c_string
c_string-digit d s h = rw (c_string, ne→== (48 + d) 0 (λ e. absurd (omega (arith, e)))) refl

c_string-digits :
    (f n : ℕ) (rest : Bytes)
    → n < 10 ^ suc f
    → c_string (digits (suc f) n ++ rest) ≡ digits (suc f) n ++ c_string rest
c_string-digits zero n rest h =
    rw (digits_small zero n (omega arith)) (c_string-digit n rest (omega arith))
c_string-digits (suc f) n rest h = elim (Bool-cases (ltb n 10)) [
  | inl e ↦ rw (digits_small (suc f) n (ltb→lt n 10 e)) (c_string-digit n rest (ltb→lt n 10 e))
  | inr e ↦
      let last = (48 + n % 10) ∷ [] in
      let tens = digits (suc f) (n / 10) in
      let large = digits_large (suc f) n (ground arith) in
      ap (λ (s : Bytes). c_string (s ++ rest)) large
      ∙ ap c_string (append_assoc tens last rest)
      ∙ c_string-digits f (n / 10) (last ++ rest) (omega (arith, pow-suc 10 (suc f)))
      ∙ ap (λ (s : Bytes). tens ++ s) (c_string-digit (n % 10) rest (last_digit n))
      ∙ sym (append_assoc tens last (c_string rest))
      ∙ ap (λ (s : Bytes). s ++ c_string rest) (sym large)
]

-- `%ld` reads the digits of a number behind an optional minus.
scan_number-digit :
    (d : ℕ) (s : Bytes)
    → d < 10
    → scan_number 10 ((48 + d) ∷ s) ≡ some (scan_digits 10 ((48 + d) ∷ s) 0)
unfolding scan_number
scan_number-digit d s h =
    let same : 0 * 10 + d ≡ d = omega arith in
    rw (scan_number, digit_of-digit d h, scan_digits-digit d s 0 h, same) refl

skip_spaces-digit : (d : ℕ) (s : Bytes) → d < 10 → skip_spaces ((48 + d) ∷ s) ≡ (48 + d) ∷ s
unfolding skip_spaces
skip_spaces-digit d s h = rw (skip_spaces, is_space-digit d h) refl

scan_sign-digit : (d : ℕ) (s : Bytes) → d < 10 → scan_sign ((48 + d) ∷ s) ≡ (false, (48 + d) ∷ s)
unfolding scan_sign
scan_sign-digit d s h =
    rw
      (
        scan_sign,
        ne→== (48 + d) 45 (λ e. absurd (omega (arith, e))),
        ne→== (48 + d) 43 (λ e. absurd (omega (arith, e))),
      )
      refl

-- Behind the digits stands something that is no digit, or nothing.
scan_number-digits :
    (n : ℕ) (rest : Bytes)
    → n < 10 ^ 20
    → scan_digits 10 rest n ≡ (n, rest)
    → scan_number 10 (digits 20 n ++ rest) ≡ some (n, rest)
scan_number-digits n rest h stops =
    let (d, s, low, begins) = digits_head 19 n h in
    ap (λ (t : Bytes). scan_number 10 (t ++ rest)) begins
    ∙ scan_number-digit d (s ++ rest) low
    ∙ ap (λ (t : Bytes). some (scan_digits 10 (t ++ rest) 0)) (sym begins)
    ∙ ap some (scan_digits-digits 19 n rest h ∙ stops)

read_signed-digits :
    (minus : Bool) (n : ℕ) (rest : Bytes)
    → n < 10 ^ 20
    → scan_digits 10 rest n ≡ (n, rest)
    → read_signed (minus, digits 20 n ++ rest) ≡ some (signed_64 minus n)
unfolding read_signed
read_signed-digits minus n rest h stops = rw (read_signed, scan_number-digits n rest h stops) refl

scan_long-digits :
    (n : ℕ) (rest : Bytes)
    → n < 10 ^ 20
    → scan_digits 10 rest n ≡ (n, rest)
    → scan_long (digits 20 n ++ rest) ≡ some (signed_64 false n)
unfolding scan_long
scan_long-digits n rest h stops =
    let (d, s, low, begins) = digits_head 19 n h in
    let sign : scan_sign (skip_spaces (digits 20 n ++ rest)) ≡ (false, digits 20 n ++ rest) =
      ap (λ (t : Bytes). scan_sign (skip_spaces (t ++ rest))) begins
      ∙ ap scan_sign (skip_spaces-digit d (s ++ rest) low)
      ∙ scan_sign-digit d (s ++ rest) low
      ∙ ap (λ (t : Bytes). (false, t ++ rest)) (sym begins) in
    ap read_signed sign ∙ read_signed-digits false n rest h stops

scan_long-minus : (n : ℕ) → n < 10 ^ 20 → scan_long (45 ∷ digits 20 n) ≡ some (signed_64 true n)
unfolding scan_long skip_spaces scan_sign is_space
scan_long-minus n h =
    rw (append-nil (digits 20 n)) at (read_signed-digits true n [] h (unfold scan_digits in refl))

-- What is printed has no zero byte.
c_string-show : (n : ℕ) → n < 10 ^ 20 → c_string (digits 20 n) ≡ digits 20 n
unfolding c_string
c_string-show n h =
    ap c_string (sym (append-nil (digits 20 n)))
    ∙ c_string-digits 19 n [] h
    ∙ append-nil (digits 20 n)

-- An unsigned number of 64 bits is read back if it is below 2 ^ 63, and else as the largest signed.
pub scan_long-show_unsigned :
    (n : ℕ) → n < 2 ^ 64 → scan_long (c_string (show_unsigned n)) ≡ some (min n (2 ^ 63 - 1))
unfolding show_unsigned signed_64
scan_long-show_unsigned n h =
    let long : n < 10 ^ 20 = omega arith in
    ap scan_long (c_string-show n long)
    ∙ ap scan_long (sym (append-nil (digits 20 n)))
    ∙ scan_long-digits n [] long (unfold scan_digits in refl)

-- What stands on the lines behind the first does not matter.
pub scan_long-line :
    (n : ℕ) (rest : Bytes)
    → n < 2 ^ 63
    → scan_long (c_string (show_unsigned n ++ 10 ∷ rest)) ≡ some n
unfolding show_unsigned signed_64 c_string scan_digits digit_of
scan_long-line n rest h =
    let long : n < 10 ^ 20 = omega arith in
    let same : min n (2 ^ 63 - 1) ≡ n = ground arith in
    ap scan_long (c_string-digits 19 n (10 ∷ rest) long)
    ∙ scan_long-digits n (10 ∷ c_string rest) long refl
    ∙ ap some same

pub scan_long-show_signed : (n : ℕ) → n < 2 ^ 64 → scan_long (c_string (show_signed n)) ≡ some n
unfolding show_signed show_unsigned signed_64 c_string
scan_long-show_signed n h = elim (Bool-cases (ltb n (2 ^ 63))) [
  | inl e ↦
      let same : min n (2 ^ 63 - 1) ≡ n = ground arith in
      rw (show_signed, e) (scan_long-show_unsigned n h ∙ ap some same)
  | inr e ↦
      let m = 2 ^ 64 - n in
      let long : m < 10 ^ 20 = omega arith in
      let same : (2 ^ 64 - min m (2 ^ 63)) % 2 ^ 64 ≡ n = ground arith in
      rw (show_signed, e)
        (ap (λ (s : Bytes). scan_long (45 ∷ s)) (c_string-show m long)
          ∙ scan_long-minus m long
          ∙ ap some same)
]
