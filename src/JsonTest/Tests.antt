-- ===== src/JsonTest/Tests.antt =====
-- A small test file.
use flexetl.Prelude.{◌≡◌, refl, true, List, [], ◌∷◌, some, length, arith}
use flexetl.Prelude.Words.{Bytes}
use flexetl.ClickTbl.Load.{c_string}
use flexetl.ClickTbl.Getters.Scan.{
  scan_long, scan_sign, skip_spaces, is_space, read_signed, scan_number, scan_digits, digit_of,
  signed_64,
}
use flexetl.ClickTbl.Getters.Decimal.{digits, show_unsigned}
use flexetl.ClickTbl.Int32.{int32}
use flexetl.Json2Click.LifeProc.{fgets, lines}
use flexetl.JsonTest.{
  chomp, read_data, print_lines, file_content, file_name, going, write_files, atoi, main,
}
use flexetl.JsonTest.Lines.{ended, copies, lines-file_content}

-- Two lines, of which the last has no line feed.
abbrev content : Bytes
content = b'a' ∷ 10 ∷ b'b' ∷ []

abbrev texts : List Bytes
texts = (b'a' ∷ []) ∷ (b'b' ∷ []) ∷ []

read_texts : read_data (lines (length content) content) ≡ some texts
unfolding read_data lines fgets c_string chomp
read_texts = refl

lines-file_content_example :
    let file = file_content 3 texts in
    (lines (length file) file ≡ copies 3 (ended texts))
    × (length texts ≡ length (lines (length content) content))
lines-file_content_example =
    lines-file_content content texts 3 read_texts (omega arith, (omega arith, tt))

-- `jsontest d t 1 2`, for one round of its loop.
one_file :
    main
      (λ name. true)
      (some content)
      ((b'd' ∷ []) ∷ (b't' ∷ []) ∷ (b'1' ∷ []) ∷ (b'2' ∷ []) ∷ [])
      1
    ≡ (
      (
        b'd' ∷ b'/' ∷ b'0' ∷ b'.' ∷ b'j' ∷ b's' ∷ b'o' ∷ b'n' ∷ [],
        b'a' ∷ 10 ∷ b'b' ∷ 10 ∷ b'a' ∷ 10 ∷ b'b' ∷ 10 ∷ [],
      )
          ∷ [],
      going,
    )
unfolding main write_files file_name file_content print_lines read_data lines fgets c_string chomp
    atoi int32 scan_long scan_sign skip_spaces is_space read_signed scan_number scan_digits digit_of
    signed_64 show_unsigned digits
one_file = refl
