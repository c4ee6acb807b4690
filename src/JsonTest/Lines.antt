-- ===== src/JsonTest/Lines.antt =====
-- json2click reads the files that src/jsontest/main.cpp writes.
use flexetl.Prelude.{
  ℕ, zero, suc, ◌≤◌, ◌<◌, ◌≡◌, refl, ap, sym, ◌∙◌, false, List, [], ◌∷◌, ◌++◌, map, some, length,
  length-append, append_assoc, subst, arith, inl, inr, Bool-cases, Option-cases, ◌==◌, All,
}
use flexetl.Prelude.Words.{Bytes}
use flexetl.ClickTbl.Load.{c_string}
use flexetl.Json2Click.LifeProc.{fgets, lines}
use flexetl.Json2Click.LifeProc.Lines.{IsFull, AreLines, lines-AreLines-join}
use flexetl.JsonTest.{chomp, chomp_buffer, read_data, print_lines, file_content}

-- A text that fits a line of json2click, without a line feed.
abbrev pub FitsLine : Bytes → Type 0
FitsLine l = (length l < 65535) × All (λ b. (b == 10) ≡ false) l

-- One line at the front of a file.
fgets-line :
    (n : ℕ) (l rest : Bytes)
    → length l < n
    → All (λ b. (b == 10) ≡ false) l
    → fgets n (l ++ 10 ∷ rest) ≡ (l ++ 10 ∷ [], rest)
unfolding fgets
fgets-line zero l rest h p = absurd (omega arith)
fgets-line (suc n) [] rest h p = refl
fgets-line (suc n) (b ∷ l) rest h (e, p) = rw (e, fgets-line n l rest (omega arith) p) refl

lines-line :
    (n : ℕ) (l rest : Bytes)
    → FitsLine l
    → lines (suc n) ((l ++ 10 ∷ []) ++ rest) ≡ (l ++ 10 ∷ []) ∷ lines n rest
unfolding lines
lines-line n [] rest (short, p) = rw (fgets-line 65535 [] rest short p) refl
lines-line n (b ∷ l) rest (short, p) =
    let joined = append_assoc l (10 ∷ []) rest in
    let read : fgets 65535 (b ∷ ((l ++ 10 ∷ []) ++ rest)) ≡ (b ∷ (l ++ 10 ∷ []), rest) =
      ap (λ (s : Bytes). fgets 65535 (b ∷ s)) joined ∙ fgets-line 65535 (b ∷ l) rest short p in
    rw read refl

abbrev pub ended : List Bytes → List Bytes
ended texts = map (λ (l : Bytes). l ++ 10 ∷ []) texts

-- The lines of a list, so many times.
unfoldable pub copies : ℕ → List Bytes → List Bytes
copies zero ls = []
copies (suc n) ls = ls ++ copies n ls

lines-print_lines :
    (n : ℕ) (texts : List Bytes)
    → All FitsLine texts
    → length (print_lines texts) ≤ n
    → lines n (print_lines texts) ≡ ended texts
unfolding print_lines
lines-print_lines zero [] f h = unfold lines in refl
lines-print_lines (suc n) [] f h = unfold lines in refl
lines-print_lines zero (l ∷ texts) f h =
    absurd
      (omega (arith, length-append (l ++ 10 ∷ []) (print_lines texts), length-append l (10 ∷ [])))
lines-print_lines (suc n) (l ∷ texts) (f, fs) h =
    let shorter : length (print_lines texts) ≤ n =
      omega (arith, length-append (l ++ 10 ∷ []) (print_lines texts), length-append l (10 ∷ [])) in
    lines-line n l (print_lines texts) f
    ∙ ap (λ (ls : List Bytes). (l ++ 10 ∷ []) ∷ ls) (lines-print_lines n texts fs shorter)

print_lines-append :
    (xs ys : List Bytes) → print_lines (xs ++ ys) ≡ print_lines xs ++ print_lines ys
unfolding print_lines
print_lines-append [] ys = refl
print_lines-append (x ∷ xs) ys =
    ap (λ (s : Bytes). (x ++ 10 ∷ []) ++ s) (print_lines-append xs ys)
    ∙ sym (append_assoc (x ++ 10 ∷ []) (print_lines xs) (print_lines ys))

file_content-copies :
    (n : ℕ) (texts : List Bytes) → file_content n texts ≡ print_lines (copies n texts)
unfolding file_content copies
file_content-copies zero texts = unfold print_lines in refl
file_content-copies (suc n) texts =
    ap (λ (s : Bytes). print_lines texts ++ s) (file_content-copies n texts)
    ∙ sym (print_lines-append texts (copies n texts))

ended-append : (xs ys : List Bytes) → ended (xs ++ ys) ≡ ended xs ++ ended ys
ended-append [] ys = refl
ended-append (x ∷ xs) ys = ap (λ (ls : List Bytes). (x ++ 10 ∷ []) ∷ ls) (ended-append xs ys)

ended-copies : (n : ℕ) (texts : List Bytes) → ended (copies n texts) ≡ copies n (ended texts)
unfolding copies
ended-copies zero texts = refl
ended-copies (suc n) texts =
    ended-append texts (copies n texts)
    ∙ ap (λ (ls : List Bytes). ended texts ++ ls) (ended-copies n texts)

All-append : (xs ys : List Bytes) → All FitsLine xs → All FitsLine ys → All FitsLine (xs ++ ys)
All-append [] ys h k = k
All-append (x ∷ xs) ys (h, hs) k = (h, All-append xs ys hs k)

All-copies : (n : ℕ) (texts : List Bytes) → All FitsLine texts → All FitsLine (copies n texts)
unfolding copies
All-copies zero texts h = tt
All-copies (suc n) texts h = All-append texts (copies n texts) h (All-copies n texts h)

-- A line feed stands at the end only.
abbrev IsPlain : Bytes → Type 0
IsPlain [] = Unit
IsPlain (b ∷ []) = Unit
IsPlain (b ∷ c ∷ s) = ((b == 10) ≡ false) × IsPlain (c ∷ s)

IsPlain-cons : (b : ℕ) (s : Bytes) → (b == 10) ≡ false → IsPlain s → IsPlain (b ∷ s)
IsPlain-cons b [] e h = tt
IsPlain-cons b (c ∷ s) e h = (e, h)

IsFull-IsPlain : (n : ℕ) (l : Bytes) → IsFull n l → IsPlain l
IsFull-IsPlain zero [] h = tt
IsFull-IsPlain zero (b ∷ l) h = absurd h
IsFull-IsPlain (suc n) [] h = absurd h
IsFull-IsPlain (suc n) (b ∷ l) (inl (e, nothing)) = rw nothing tt
IsFull-IsPlain (suc n) (b ∷ l) (inr (e, h)) = IsPlain-cons b l e (IsFull-IsPlain n l h)

All-IsPlain : (l : Bytes) → All (λ b. (b == 10) ≡ false) l → IsPlain l
All-IsPlain [] h = tt
All-IsPlain (b ∷ l) (e, h) = IsPlain-cons b l e (All-IsPlain l h)

c_string-IsPlain : (l : Bytes) → IsPlain l → IsPlain (c_string l)
unfolding c_string
c_string-IsPlain [] h = tt
c_string-IsPlain (b ∷ []) h = elim (Bool-cases (b == 0)) [ inl e ↦ rw e tt | inr e ↦ rw e tt ]
c_string-IsPlain (b ∷ c ∷ s) (e, h) = elim (Bool-cases (b == 0)) [
  | inl z ↦ rw z tt
  | inr z ↦ rw z (IsPlain-cons b (c_string (c ∷ s)) e (c_string-IsPlain (c ∷ s) h))
]

chomp-IsPlain : (l : Bytes) → IsPlain l → All (λ b. (b == 10) ≡ false) (chomp l)
unfolding chomp
chomp-IsPlain [] h = tt
chomp-IsPlain (b ∷ []) h = elim (Bool-cases (b == 10)) [ inl e ↦ rw e tt | inr e ↦ rw e (e, tt) ]
chomp-IsPlain (b ∷ c ∷ s) (e, h) = (e, chomp-IsPlain (c ∷ s) h)

AreLines-IsPlain : (ls : List Bytes) → AreLines 65535 ls → All IsPlain ls
AreLines-IsPlain [] h = tt
AreLines-IsPlain (l ∷ []) (_, inl f) = (IsFull-IsPlain 65535 l f, tt)
AreLines-IsPlain (l ∷ []) (_, inr p) = (All-IsPlain l p.1, tt)
AreLines-IsPlain (l ∷ m ∷ ls) (f, h) = (IsFull-IsPlain 65535 l f, AreLines-IsPlain (m ∷ ls) h)

-- What one line becomes.
chomp_buffer-IsPlain :
    (l text : Bytes) → IsPlain l → chomp_buffer l ≡ some text → All (λ b. (b == 10) ≡ false) text
chomp_buffer-IsPlain [] text h e = absurd cc
chomp_buffer-IsPlain (b ∷ s) text h e =
    let same : chomp (b ∷ s) ≡ text = cc in
    subst (All (λ b. (b == 10) ≡ false)) same (chomp-IsPlain (b ∷ s) h)

read_data-All :
    (ls texts : List Bytes)
    → All IsPlain ls
    → All (λ (l : Bytes). length l < 65535) texts
    → read_data ls ≡ some texts
    → All FitsLine texts × (length texts ≡ length ls)
unfolding read_data
read_data-All [] texts h short e =
    let nothing : [] ≡ texts = cc in subst (λ t. All FitsLine t × (length t ≡ 0)) nothing (tt, refl)
read_data-All (l ∷ ls) texts (h, hs) short e = elim (Option-cases (chomp_buffer (c_string l))) [
  | inl none' ↦ absurd (cc (rw (read_data, none') at e))
  | inr (text, first) ↦ elim (Option-cases (read_data ls)) [
    | inl none' ↦ absurd (cc (rw (read_data, first, none') at e))
    | inr (others, rest) ↦
        let same : text ∷ others ≡ texts = cc (rw (read_data, first, rest) at e) in
        let (s, ss) : All (λ (l : Bytes). length l < 65535) (text ∷ others) =
          subst (All (λ (l : Bytes). length l < 65535)) (sym same) short in
        let (fit, count) = read_data-All ls others hs ss rest in
        let plain = chomp_buffer-IsPlain (c_string l) text (c_string-IsPlain l h) first in
        subst (λ t. All FitsLine t × (length t ≡ length (l ∷ ls))) same
          (((s, plain), fit), omega (arith, count))
  ]
]

-- If the lines that the program reads from its test file have less than 65535 bytes, json2click reads
-- each file that it writes as these lines, each with a line feed, as often as it was told to; they
-- are as many as the lines of the test file.
pub lines-file_content :
    (content : Bytes) (texts : List Bytes) (n : ℕ)
    → read_data (lines (length content) content) ≡ some texts
    → All (λ (l : Bytes). length l < 65535) texts
    → let file = file_content n texts in
      (lines (length file) file ≡ copies n (ended texts))
      × (length texts ≡ length (lines (length content) content))
lines-file_content content texts n e short =
    let plain = AreLines-IsPlain _ (lines-AreLines-join content).1 in
    let (fit, count) = read_data-All (lines (length content) content) texts plain short e in
    let file = file_content-copies n texts in
    (
      ap (λ (s : Bytes). lines (length s) s) file
          ∙ lines-print_lines _ (copies n texts) (All-copies n texts fit) (omega arith)
          ∙ ended-copies n texts,
      count,
    )
