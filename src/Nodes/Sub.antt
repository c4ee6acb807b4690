-- ===== src/Nodes/Sub.antt =====
-- src/flexetl/nodes.cpp: `subCount`, `subNode` and `subHundler`. An index past the end of a vector is
-- undefined behaviour.
use flexetl.Prelude.{ℕ, zero, suc, ltb, if◌then◌else◌, Option, none, some}
use flexetl.Prelude.Int.{ℤ, pos, negsuc}
use flexetl.Result.{Result, ok, fault}
use flexetl.Nodes.Tree.{Node, Nodes, node, nil, cons}

unfoldable pub sub_count : {H : Type 0} → Nodes H → ℕ
sub_count nil = 0
sub_count (cons n ns) = suc (sub_count ns)

unfoldable pub get_elem? : {H : Type 0} → Nodes H → ℕ → Option (Node H)
get_elem? nil i = none
get_elem? (cons n ns) zero = some n
get_elem? (cons n ns) (suc i) = get_elem? ns i

-- `none` for a null pointer. A negative `num` is a huge `size_t` in the comparison.
unfoldable pub sub_node : {H : Type 0} → Nodes H → ℤ → Result (Option (Node H))
sub_node ns (negsuc i) = ok none
sub_node ns (pos i) =
    if ltb (sub_count ns) i
    then ok none
    else (elim (get_elem? ns i) [ none ↦ fault | some n ↦ ok (some n) ])

abbrev pub handler_of : {H : Type 0} → Node H → Option H
handler_of (node h ns) = h

unfoldable pub sub_handler : {H : Type 0} → Nodes H → ℤ → Result (Option H)
sub_handler ns (negsuc i) = ok none
sub_handler ns (pos i) =
    if ltb (sub_count ns) i
    then ok none
    else (elim (get_elem? ns i) [ none ↦ fault | some n ↦ ok (handler_of n) ])
