-- ===== src/Paths.antt =====
-- What src/flexetl uses of `std::filesystem::path`, which is there that of the technical specification
-- (`experimental`). A path is its text.
use flexetl.Prelude.{Bool, true, false, ◌||◌, [], ◌∷◌, ◌++◌, ◌==◌, if◌then◌else◌}
use flexetl.Prelude.Words.{Bytes}

abbrev pub is_empty : Bytes → Bool
is_empty [] = true
is_empty (b ∷ s) = false

abbrev ends_in_slash : Bytes → Bool
ends_in_slash [] = false
ends_in_slash (b ∷ []) = b == b'/'
ends_in_slash (b ∷ c ∷ s) = ends_in_slash (c ∷ s)

abbrev begins_with_slash : Bytes → Bool
begins_with_slash [] = false
begins_with_slash (b ∷ s) = b == b'/'

-- `dir / name`
unfoldable pub join : Bytes → Bytes → Bytes
join dir name =
    if is_empty dir || ends_in_slash dir || is_empty name || begins_with_slash name
    then dir ++ name
    else (dir ++ b'/' ∷ []) ++ name

-- The text from its last dot on, nothing if there is none.
unfoldable pub from_last_dot : Bytes → Bytes
from_last_dot [] = []
from_last_dot (b ∷ s) =
    let rest = from_last_dot s in if is_empty rest then (if b == b'.' then b ∷ s else []) else rest

-- `extension()` of a file's name.
unfoldable pub extension : Bytes → Bytes
extension (b ∷ []) = []
extension (a ∷ b ∷ []) =
    if a == b'.' then (if b == b'.' then [] else a ∷ b ∷ []) else from_last_dot (a ∷ b ∷ [])
extension s = from_last_dot s
