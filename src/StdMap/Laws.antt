-- ===== src/StdMap/Laws.antt =====
-- The laws of the map: lookups after a change, the order of the keys, and predicates on entries.
use mathlib.Core.Option
use flexetl.Prelude.{
  ◌≡◌, refl, subst, ◌⊎◌, inl, inr, Bool, true, false, Ordering, Option, none, some, [], ◌∷◌, ◌++◌,
  arith, if◌then◌else◌,
}
use flexetl.Prelude.Words.{Bytes}
use flexetl.StdMap.Key.{
  compare_bytes, IsLess, compare_bytes_self, eq_of_compare_bytes, compare_bytes-flip, lt_of_gt,
  lt_trans,
}
use flexetl.StdMap.Ops.{Map, find, update, map_values}

Ordering-cases : (o : Ordering) → (o ≡ Ordering.lt) ⊎ ((o ≡ Ordering.eq) ⊎ (o ≡ Ordering.gt))
Ordering-cases Ordering.lt = inl refl
Ordering-cases Ordering.eq = inr (inl refl)
Ordering-cases Ordering.gt = inr (inr refl)

abbrev pub same_key : Bytes → Bytes → Bool
same_key a b = elim (compare_bytes a b) [ Ordering.eq ↦ true | _ ↦ false ]

pub eq_of_same_key : (a b : Bytes) → same_key a b ≡ true → a ≡ b
eq_of_same_key a b h = ground (arith, eq_of_compare_bytes a b)

pub same_key_self : (a : Bytes) → same_key a a ≡ true
same_key_self a = rw (compare_bytes_self a, same_key)

module _ {ℓ} {V : Type ℓ} where
  abbrev pub or_default : V → Option V → V
  or_default d none = d
  or_default d (some v) = v

  -- After `f(m[k])` the key `k` has `f` of its old entry or of the default; others are untouched.
  pub find-update :
      (d : V) (k j : Bytes) (f : V → V) (m : Map V)
      → find j (update d k f m)
        ≡ (if same_key j k then some (f (or_default d (find k m))) else find j m)
  unfolding find update
  find-update d k j f [] = ground arith
  find-update d k j f ((i, v) ∷ m) = ground (
    arith,
    find-update d k j f m,
    eq_of_compare_bytes j k,
    eq_of_compare_bytes k i,
    eq_of_compare_bytes j i,
    compare_bytes_self k,
    compare_bytes-flip k i,
    lt_of_gt k i,
    lt_of_gt j k,
    compare_bytes-flip j k,
    lt_trans j k i,
    lt_trans i k j,
    compare_bytes-flip j i,
    compare_bytes-flip i j,
  )

  pub find-map_values :
      (k : Bytes) (f : V → V) (m : Map V) → find k (map_values f m) ≡ Option.map f (find k m)
  unfolding find map_values
  find-map_values k f [] = refl
  find-map_values k f ((i, v) ∷ m) = ground (arith, find-map_values k f m)

  -- `P` holds of the value of every entry.
  abbrev pub AllValues {κ} : (V → Type κ) → Map V → Type κ
  AllValues P [] = Unit
  AllValues P ((j, v) ∷ m) = P v × AllValues P m

  pub AllValues-find {κ} :
      (P : V → Type κ) (k : Bytes) (m : Map V) {v : V} → AllValues P m → find k m ≡ some v → P v
  unfolding find
  AllValues-find P k [] h e = cc
  AllValues-find P k ((j, w) ∷ m) {v} h e = pick (compare_bytes k j) (AllValues-find P k m h.1) e
    where
      pick :
          (o : Ordering)
          → (find k m ≡ some v → P v)
          → elim o as (λ _. Option V) [
            | Ordering.lt ↦ none
            | Ordering.eq ↦ some w
            | Ordering.gt ↦ find k m
          ]
            ≡ some v
          → P v
      pick Ordering.lt rest q = cc
      pick Ordering.eq rest q = subst P (cc) h.0
      pick Ordering.gt rest q = rest q

  pub AllValues-update {κ} :
      (P : V → Type κ) (d : V) (k : Bytes) (f : V → V) (m : Map V)
      → P (f d)
      → ((v : V) → P v → P (f v))
      → AllValues P m
      → AllValues P (update d k f m)
  unfolding update
  AllValues-update P d k f [] new old h = (new, tt)
  AllValues-update P d k f ((j, w) ∷ m) new old h = elim (Ordering-cases (compare_bytes k j)) [
    | inl e ↦ rw (e, update) (new, h)
    | inr (inl e) ↦ rw (e, update) (old w h.0, h.1)
    | inr (inr e) ↦ rw (e, update) (h.0, AllValues-update P d k f m new old h.1)
  ]

  pub AllValues-map_values {κ κ'} :
      (P : V → Type κ) (Q : V → Type κ') (f : V → V) (m : Map V)
      → ((v : V) → P v → Q (f v))
      → AllValues P m
      → AllValues Q (map_values f m)
  unfolding map_values
  AllValues-map_values P Q f [] keep h = tt
  AllValues-map_values P Q f ((j, w) ∷ m) keep h =
      (keep w h.0, AllValues-map_values P Q f m keep h.1)

  pub AllValues-weaken {κ κ'} :
      (P : V → Type κ) (Q : V → Type κ') (m : Map V)
      → ((v : V) → P v → Q v)
      → AllValues P m
      → AllValues Q m
  AllValues-weaken P Q [] keep h = tt
  AllValues-weaken P Q ((j, w) ∷ m) keep h = (keep w h.0, AllValues-weaken P Q m keep h.1)

  -- `k` comes before the first key.
  abbrev pub IsAbove : Bytes → Map V → Type 0
  IsAbove k [] = Unit
  IsAbove k ((j, v) ∷ m) = IsLess k j

  abbrev pub IsSorted : Map V → Type 0
  IsSorted [] = Unit
  IsSorted ((k, v) ∷ m) = IsAbove k m × IsSorted m

  IsAbove-update :
      (d : V) (j k : Bytes) (f : V → V) (m : Map V)
      → IsLess j k
      → IsAbove j m
      → IsAbove j (update d k f m)
  unfolding update
  IsAbove-update d j k f [] h a = h
  IsAbove-update d j k f ((i, v) ∷ m) h a = ground arith

  pub update-IsSorted :
      (d : V) (k : Bytes) (f : V → V) (m : Map V) → IsSorted m → IsSorted (update d k f m)
  unfolding update
  update-IsSorted d k f [] h = (tt, tt)
  update-IsSorted d k f ((j, v) ∷ m) h =
      ground (arith, update-IsSorted d k f m h.1, lt_of_gt k j, IsAbove-update d j k f m)

  pub map_values-IsSorted : (f : V → V) (m : Map V) → IsSorted m → IsSorted (map_values f m)
  unfolding map_values
  map_values-IsSorted f [] h = tt
  map_values-IsSorted f ((j, v) ∷ []) h = (tt, tt)
  map_values-IsSorted f ((j, v) ∷ (i, w) ∷ m) h = (h.0, map_values-IsSorted f ((i, w) ∷ m) h.1)

  -- Every key comes before `k`.
  abbrev pub IsBelow : Map V → Bytes → Type 0
  IsBelow [] k = Unit
  IsBelow ((j, v) ∷ m) k = IsLess j k × IsBelow m k

  -- A key after all others is inserted at the end.
  pub update_last :
      (d : V) (k : Bytes) (f : V → V) (m : Map V)
      → IsBelow m k
      → update d k f m ≡ m ++ (k, f d) ∷ []
  unfolding update
  update_last d k f [] h = refl
  update_last d k f ((j, v) ∷ m) h = ground (arith, compare_bytes-flip j k, update_last d k f m h.1)

  -- A key after all others is not there yet.
  pub find_last : (k : Bytes) (m : Map V) → IsBelow m k → find k m ≡ none
  unfolding find
  find_last k [] h = refl
  find_last k ((j, v) ∷ m) h = ground (arith, compare_bytes-flip j k, find_last k m h.1)

  -- `m` and then one more entry, before every key that comes after the new one.
  pub IsBelow-snoc :
      (m : Map V) (k j : Bytes) (v : V) → IsBelow m k → IsLess k j → IsBelow (m ++ (k, v) ∷ []) j
  IsBelow-snoc [] k j v h l = (l, tt)
  IsBelow-snoc ((i, w) ∷ m) k j v h l = (lt_trans i k j h.0 l, IsBelow-snoc m k j v h.1 l)
