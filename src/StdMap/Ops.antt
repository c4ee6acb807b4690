-- ===== src/StdMap/Ops.antt =====
-- The operations: lookup by the order of the keys, `m[k]` with a change of the entry, and a
-- change of every entry.
use flexetl.Prelude.{Ordering, Option, none, some, List, [], ◌∷◌}
use flexetl.Prelude.Words.{Bytes}
use flexetl.StdMap.Key.{compare_bytes}

abbrev pub Map {ℓ} : Type ℓ → Type ℓ
Map V = List (Bytes × V)

module _ {ℓ} {V : Type ℓ} where
  -- `m.find(k)`
  unfoldable pub find : Bytes → Map V → Option V
  unfolding compare_bytes
  find k [] = none
  find k ((j, v) ∷ m) = elim (compare_bytes k j) [
    | Ordering.lt ↦ none
    | Ordering.eq ↦ some v
    | Ordering.gt ↦ find k m
  ]

  -- `f(m[k])`: a key that is missing is first inserted, with the default `d`.
  unfoldable pub update : V → Bytes → (V → V) → Map V → Map V
  unfolding compare_bytes
  update d k f [] = (k, f d) ∷ []
  update d k f ((j, v) ∷ m) = elim (compare_bytes k j) [
    | Ordering.lt ↦ (k, f d) ∷ (j, v) ∷ m
    | Ordering.eq ↦ (j, f v) ∷ m
    | Ordering.gt ↦ (j, v) ∷ update d k f m
  ]

  -- `for (auto &el : m) f(el.second)`
  unfoldable pub map_values : (V → V) → Map V → Map V
  map_values f [] = []
  map_values f ((j, v) ∷ m) = (j, f v) ∷ map_values f m
