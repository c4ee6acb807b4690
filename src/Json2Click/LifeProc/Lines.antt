-- ===== src/Json2Click/LifeProc/Lines.antt =====
-- The strings that the loop over a file reads.
use flexetl.Prelude.{
  ℕ, zero, suc, ◌≤◌, ◌<◌, ◌≡◌, refl, ap, ◌∙◌, ◌⊎◌, false, List, [], ◌∷◌, ◌++◌, length, arith, inl,
  inr, Bool-cases, ◌==◌, All, length-append,
}
use flexetl.Prelude.Words.{Bytes}
use flexetl.Json2Click.LifeProc.{fgets, lines}

abbrev pub join : List Bytes → Bytes
join [] = []
join (l ∷ ls) = l ++ join ls

fgets-append : (n : ℕ) (bs : Bytes) → let (line, rest) = fgets n bs in line ++ rest ≡ bs
unfolding fgets
fgets-append zero bs = refl
fgets-append (suc n) [] = refl
fgets-append (suc n) (b ∷ bs) = elim (Bool-cases (b == 10)) [
  | inl e ↦ rw e refl
  | inr e ↦ rw e (ap (λ (l : Bytes). b ∷ l) (fgets-append n bs))
]

fgets-length : (n : ℕ) (bs : Bytes) → length (fgets n bs).0 ≤ n
unfolding fgets
fgets-length zero bs = omega arith
fgets-length (suc n) [] = omega arith
fgets-length (suc n) (b ∷ bs) = elim (Bool-cases (b == 10)) [
  | inl e ↦ rw e (omega arith)
  | inr e ↦ rw e (omega (arith, fgets-length n bs))
]

fgets-reads :
    (n b : ℕ) (bs : Bytes)
    → (0 < length (fgets (suc n) (b ∷ bs)).0) × (length (fgets (suc n) (b ∷ bs)).1 ≤ length bs)
unfolding fgets
fgets-reads n b bs = elim (Bool-cases (b == 10)) [
  | inl e ↦ rw e (omega arith, omega arith)
  | inr e ↦ rw e (
    omega arith,
    omega (arith, length-append (fgets n bs).0 (fgets n bs).1, ap length (fgets-append n bs)),
  )
]

-- A line of `n` bytes at most that is complete: its last byte and no other ends it, or it has `n`
-- bytes and none of them does, up to the last.
abbrev pub IsFull : ℕ → Bytes → Type 0
IsFull zero [] = Unit
IsFull zero (b ∷ l) = ⊥
IsFull (suc n) [] = ⊥
IsFull (suc n) (b ∷ l) = ((b ≡ 10) × (l ≡ [])) ⊎ (((b == 10) ≡ false) × IsFull n l)

-- The last line of a file may be shorter and not be ended.
abbrev pub IsPart : ℕ → Bytes → Type 0
IsPart n l = (length l ≤ n) × All (λ b. (b == 10) ≡ false) l

abbrev pub AreLines : ℕ → List Bytes → Type 0
AreLines n [] = Unit
AreLines n (l ∷ []) = (0 < length l) × (IsFull n l ⊎ IsPart n l)
AreLines n (l ∷ ls) = IsFull n l × AreLines n ls

fgets-IsFull :
    (n : ℕ) (bs : Bytes)
    → let (line, rest) = fgets n bs in IsFull n line ⊎ ((rest ≡ []) × IsPart n line)
unfolding fgets
fgets-IsFull zero bs = inl tt
fgets-IsFull (suc n) [] = inr (refl, (omega arith, tt))
fgets-IsFull (suc n) (b ∷ bs) = elim (Bool-cases (b == 10)) [
  | inl e ↦ rw e (inl (inl (ground arith, refl)))
  | inr e ↦ rw e (elim (fgets-IsFull n bs) [
    | inl f ↦ inl (inr (e, f))
    | inr (r, (le, p)) ↦ inr (r, (omega arith, (e, p)))
  ])
]

AreLines-cons :
    (n : ℕ) (l : Bytes) (ls : List Bytes)
    → 0 < length l
    → IsFull n l ⊎ ((ls ≡ []) × IsPart n l)
    → AreLines n ls
    → AreLines n (l ∷ ls)
AreLines-cons n l [] h (inl f) hs = (h, inl f)
AreLines-cons n l [] h (inr (e, p)) hs = (h, inr p)
AreLines-cons n l (m ∷ ls) h (inl f) hs = (f, hs)
AreLines-cons n l (m ∷ ls) h (inr (e, p)) hs = absurd cc

lines_nil : (n : ℕ) → lines n [] ≡ []
unfolding lines
lines_nil zero = refl
lines_nil (suc n) = refl

lines-AreLines : (n : ℕ) (bs : Bytes) → AreLines 65535 (lines n bs)
unfolding lines
lines-AreLines zero bs = tt
lines-AreLines (suc n) [] = tt
lines-AreLines (suc n) (b ∷ bs) =
    AreLines-cons 65535 _ (lines n (fgets 65535 (b ∷ bs)).1) (fgets-reads 65534 b bs).0
      (elim (fgets-IsFull 65535 (b ∷ bs)) [
        | inl f ↦ inl f
        | inr (r, p) ↦ inr (rw r (lines_nil n), p)
      ])
      (lines-AreLines n (fgets 65535 (b ∷ bs)).1)

lines-join : (n : ℕ) (bs : Bytes) → length bs ≤ n → join (lines n bs) ≡ bs
unfolding lines
lines-join zero [] h = refl
lines-join zero (b ∷ bs) h = absurd (omega arith)
lines-join (suc n) [] h = refl
lines-join (suc n) (b ∷ bs) h =
    let (line, rest) = fgets 65535 (b ∷ bs) in
    ap (λ (l : Bytes). line ++ l) (lines-join n rest (omega (arith, fgets-reads 65534 b bs)))
    ∙ fgets-append 65535 (b ∷ bs)

-- With as many reads as the file has bytes, the loop reads the whole file: the strings put together
-- are its content, and each but the last ends with the only line feed in it or has 65535 bytes; the
-- last may also be shorter and without a line feed, but has at least one byte.
pub lines-AreLines-join :
    (content : Bytes)
    → let ls = lines (length content) content in (join ls ≡ content) × AreLines 65535 ls
lines-AreLines-join content =
    (lines-join (length content) content (omega arith), lines-AreLines (length content) content)
