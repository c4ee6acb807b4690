-- ===== src/Metrics/Registry/Connect.antt =====
-- Two counters that src/stem/metrics connects under one name.
use flexetl.Prelude.{
  ℕ, ◌≡◌, refl, ◌∙◌, true, Option, none, some, inl, inr, Option-cases, Bool-cases, if◌then◌else◌,
}
use flexetl.Prelude.Words.{Bytes}
use flexetl.StdMap.{Map, find, update, find-update, same_key_self}
use flexetl.Metrics.Counters.{Kind, counter_u, counter_d, collector_u}
use flexetl.Metrics.Registry.{View, same_kind, connect}

same_kind_eq : (a b : Kind) → same_kind a b ≡ true → a ≡ b
same_kind_eq counter_u counter_u h = refl
same_kind_eq counter_d counter_d h = refl
same_kind_eq collector_u collector_u h = refl
same_kind_eq counter_u counter_d h = absurd cc
same_kind_eq counter_u collector_u h = absurd cc
same_kind_eq counter_d counter_u h = absurd cc
same_kind_eq counter_d collector_u h = absurd cc
same_kind_eq collector_u counter_u h = absurd cc
same_kind_eq collector_u counter_d h = absurd cc

connected :
    (name : Bytes) (b : View) (views : Map View) (view : View)
    → find name views ≡ some view
    → connect name b views ≡ (if same_kind view.kind b.kind then some (views, view.cell) else none)
unfolding connect
connected name b views view e = rw (connect, e) refl

-- After a counter was connected under a name, every other of its type gets the same cell there, with
-- no change of the map, and one of another type makes `connect` throw.
pub connect-connect :
    (name : Bytes) (a b : View) (views views' : Map View) (cell : ℕ)
    → connect name a views ≡ some (views', cell)
    → connect name b views' ≡ (if same_kind a.kind b.kind then some (views', cell) else none)
unfolding connect
connect-connect name a b views views' cell h = elim (Option-cases (find name views)) [
  | inl e ↦
      let added : find name (update a name (λ _. a) views) ≡ some a =
        find-update a name name (λ _. a) views ∙ rw (same_key_self name) refl in
      let made : ◌≡◌ {A = Option (Map View × ℕ)} (some (update a name (λ _. a) views, a.cell))
          (some (views', cell)) =
        rw (connect, e) at h in
      let same : update a name (λ _. a) views ≡ views' = cc in
      let same_cell : a.cell ≡ cell = cc in
      rw (← same, ← same_cell) (connected name b (update a name (λ _. a) views) a added)
  | inr (view, e) ↦ elim (Bool-cases (same_kind view.kind a.kind)) [
    | inl k ↦
        let made : ◌≡◌ {A = Option (Map View × ℕ)} (some (views, view.cell)) (some (views', cell)) =
          rw (connect, e, k) at h in
        let same : views ≡ views' = cc in
        let same_cell : view.cell ≡ cell = cc in
        rw (← same, ← same_cell, ← same_kind_eq view.kind a.kind k) (connected name b views view e)
    | inr k ↦ absurd (cc (rw (connect, e, k) at h))
  ]
]
