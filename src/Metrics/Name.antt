-- ===== src/Metrics/Name.antt =====
-- src/stem/metrics/metrics.cpp: `getName`, the name of a metric below two roots.
use flexetl.Prelude.{Bool, false, not, ◌&&◌, ◌||◌, [], ◌∷◌, ◌++◌, ◌==◌, if◌then◌else◌}
use flexetl.Prelude.Words.{Bytes}

-- `root[root.length() - 1] == '.'` and `name[0] == '.'`; behind an empty text is its zero byte.
abbrev pub ends_in_dot : Bytes → Bool
ends_in_dot [] = false
ends_in_dot (b ∷ []) = b == b'.'
ends_in_dot (b ∷ c ∷ s) = ends_in_dot (c ∷ s)

abbrev pub begins_with_dot : Bytes → Bool
begins_with_dot [] = false
begins_with_dot (b ∷ s) = b == b'.'

-- `joinRoot`, for a root that is not empty. In the last case `name.begin()++` is still the first byte.
unfoldable pub join_root : Bytes → Bytes → Bytes
join_root root name =
    if ends_in_dot root && not (begins_with_dot name)
      || not (ends_in_dot root) && begins_with_dot name
    then root ++ name
    else if not (ends_in_dot root) && not (begins_with_dot name)
    then (root ++ b'.' ∷ []) ++ name
    else root ++ name

-- `getName`; the first argument is `m_root`.
unfoldable pub get_name : Bytes → Bytes → Bytes → Bytes
get_name [] [] name = name
get_name [] (b ∷ root) name = join_root (b ∷ root) name
get_name (a ∷ own) [] name = join_root (a ∷ own) name
get_name (a ∷ own) (b ∷ root) name = join_root (join_root (a ∷ own) (b ∷ root)) name
