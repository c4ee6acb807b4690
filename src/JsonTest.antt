-- ===== src/JsonTest.antt =====
-- src/jsontest/main.cpp: the program that writes test files for json2click, by rounds of its loop.
mod Tests
pub mod Lines
use flexetl.Prelude.{
  ℕ, zero, suc, ◌+◌, Bool, true, false, List, [], ◌∷◌, ◌++◌, Option, none, some, length, ltb, ◌==◌,
  if◌then◌else◌,
}
use flexetl.Prelude.Words.{Bytes}
use flexetl.Prelude.Int.{ℤ, pos}
use flexetl.ClickTbl.Int32.{int32, rounds}
use flexetl.ClickTbl.Load.{c_string}
use flexetl.ClickTbl.Getters.Scan.{scan_long}
use flexetl.ClickTbl.Getters.Decimal.{show_unsigned}
use flexetl.Json2Click.LifeProc.{lines}

-- `if (buffer[strlen(buffer)-1]=='\n') buffer[strlen(buffer)-1] = 0`, on a text that is not empty.
unfoldable pub chomp : Bytes → Bytes
chomp [] = []
chomp (b ∷ []) = if b == 10 then [] else b ∷ []
chomp (b ∷ c ∷ s) = b ∷ chomp (c ∷ s)

-- A line of the test file; for an empty text the byte before the buffer is read.
abbrev pub chomp_buffer : Bytes → Option Bytes
chomp_buffer [] = none
chomp_buffer (b ∷ s) = some (chomp (b ∷ s))

-- The list `data`: `none` if undefined behaviour was met.
unfoldable pub read_data : List Bytes → Option (List Bytes)
read_data [] = some []
read_data (line ∷ ls) = elim (chomp_buffer (c_string line)) [
  | none ↦ none
  | some el ↦ elim (read_data ls) [ none ↦ none | some texts ↦ some (el ∷ texts) ]
]

-- `fprintf(fl, "%s\n", el.c_str())` for each element, so many times. The elements come from
-- texts without a zero byte.
unfoldable pub print_lines : List Bytes → Bytes
print_lines [] = []
print_lines (el ∷ texts) = (el ++ 10 ∷ []) ++ print_lines texts

unfoldable pub file_content : ℕ → List Bytes → Bytes
file_content zero texts = []
file_content (suc n) texts = print_lines texts ++ file_content n texts

-- `char name[300]; sprintf(name, "%s/%d.json", argv[1], counter)`: `none` if it does not fit.
unfoldable pub file_name : Bytes → ℕ → Option Bytes
file_name dir counter =
    let name = dir ++ b'/' ∷ show_unsigned counter ++ b'.' ∷ b'j' ∷ b's' ∷ b'o' ∷ b'n' ∷ [] in
    if ltb (length name) 300 then some name else none

-- How the program ends: by `return`, in undefined behaviour, or not within the rounds that are
-- looked at.
pub data Ending : Type 0 where
  returned crashed going : Ending

-- The files that were written, the last one first, by so many rounds. `fprintf` on the null pointer
-- of a file that cannot be opened is undefined.
unfoldable pub write_files :
    (Bytes → Bool)
    → Bytes
    → ℕ
    → List Bytes
    → ℕ
    → ℕ
    → List (Bytes × Bytes)
    → List (Bytes × Bytes) × Ending
write_files opens dir count texts zero counter files = (files, going)
write_files opens dir count texts (suc n) counter files = elim (file_name dir counter) [
  | none ↦ (files, crashed)
  | some name ↦
      let more =
        write_files opens dir count texts n (counter + 1)
          ((name, file_content count texts) ∷ files) in
      if opens name then more else (files, crashed)
]

-- `atoi`
unfoldable pub atoi : Bytes → ℤ
atoi s = elim (scan_long (c_string s)) [ none ↦ pos 0 | some n ↦ int32 n ]

-- `main` on its arguments behind the first, with the bytes of the test file if it can be opened. Only
-- the first of the four is tested for.
unfoldable pub main : (Bytes → Bool) → Option Bytes → List Bytes → ℕ → List (Bytes × Bytes) × Ending
main opens content [] n = ([], returned)
main opens content (dir ∷ file ∷ interval ∷ count ∷ args) n = elim content [
  | none ↦ ([], returned)
  | some bytes ↦ elim (read_data (lines (length bytes) bytes)) [
    | none ↦ ([], crashed)
    | some texts ↦ write_files opens dir (rounds (atoi count)) texts n 0 []
  ]
]
main opens content args n = ([], crashed)
