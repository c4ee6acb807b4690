-- ===== src/ClickTbl/Getters/Toy.antt =====
-- A platform for the examples on the getters of src/flexetl/clicktbl.inl.
use flexetl.Prelude.{[], none}
use flexetl.ClickTbl.Getters.{Platform}

-- `double` is taken as a number that is its own bits, and every text as no time, day or address.
abbrev pub platform : Platform
platform = record {
  of_unsigned = λ n. n;
  of_signed = λ n. n;
  to_u64 = λ n. n;
  to_u32 = λ n. n;
  to_u16 = λ n. n;
  to_u8 = λ n. n;
  to_float = λ n. n;
  scan_double = λ s. none;
  show_double = λ n. [];
  stack_left = 0;
  seconds = λ tm s. 0;
  day = λ s. 0;
  address = λ s. 0;
  now = 0;
}
