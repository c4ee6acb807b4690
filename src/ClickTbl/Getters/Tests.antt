-- ===== src/ClickTbl/Getters/Tests.antt =====
-- src/flexetl/clicktbl.inl: the getters on concrete values.
use flexetl.Prelude.{◌-◌, ◌^◌, ◌≡◌, arith, min}
use flexetl.ClickTbl.Value.{Value, str, int, uint}
use flexetl.ClickTbl.Getters.{get_string, get_uint64, get_uint32, get_uint16, get_uint8}
use flexetl.ClickTbl.Getters.SameText.{get_uint-get_string, get_uint64-get_string}
use flexetl.ClickTbl.Getters.Toy.{platform}

-- -3
get_uint-get_string_example :
    let n = 2 ^ 64 - 3 in
    let text : Value = str (get_string platform (int n)) in
    (get_uint64 platform text ≡ n)
    × (get_uint32 platform text ≡ get_uint32 platform (int n))
    × (get_uint16 platform text ≡ get_uint16 platform (int n))
    × (get_uint8 platform text ≡ get_uint8 platform (int n))
get_uint-get_string_example = get_uint-get_string platform (2 ^ 64 - 3) (omega arith)

get_uint64-get_string_example :
    get_uint64 platform (str (get_string platform (uint (2 ^ 64 - 3))))
    ≡ min (2 ^ 64 - 3) (2 ^ 63 - 1)
get_uint64-get_string_example = get_uint64-get_string platform (2 ^ 64 - 3) (omega arith)
