-- ===== src/Queue.antt =====
-- The queues of contrib/concurrentqueue between the threads, as src/ uses them: `enqueue` adds at the
-- end, and since no order is kept between threads `wait_dequeue_timed` gives any entry, or none.
use flexetl.Prelude.{
  ℕ, zero, suc, ◌+◌, ◌≡◌, Bool, true, false, List, [], ◌∷◌, ◌++◌, Option, none, some, inl, inr,
  Option-cases, arith,
}
use flexetl.Prelude.Words.{Bytes}
use flexetl.StdMap.{same_key}

-- The item at a place of a list, and the others.
unfoldable pub remove_at {ℓ} : {A : Type ℓ} → ℕ → List A → Option (A × List A)
remove_at n [] = none
remove_at zero (x ∷ xs) = some (x, xs)
remove_at (suc n) (x ∷ xs) = elim (remove_at n xs) [ none ↦ none | some (y, ys) ↦ some (y, x ∷ ys) ]

-- `wait_dequeue_timed`: the place that is picked, or none within the time.
abbrev pub dequeue {ℓ} : {A : Type ℓ} → Option ℕ → List A → Option (A × List A)
dequeue none queue = none
dequeue (some n) queue = remove_at n queue

-- Taking an entry out of the queue changes nothing else.
pub remove_at_split {ℓ} :
    {A : Type ℓ} (n : ℕ) (q : List A) (e : A) (rest : List A)
    → remove_at n q ≡ some (e, rest)
    → (p : List A) × (r : List A) × (q ≡ p ++ e ∷ r) × (rest ≡ p ++ r)
unfolding remove_at
remove_at_split n [] e rest h = absurd cc
remove_at_split zero (x ∷ q) e rest h = ([], q, cc, cc)
remove_at_split {A} (suc n) (x ∷ q) e rest h = elim (Option-cases (remove_at n q)) [
  | inl none_left ↦ absurd (cc (rw none_left at h))
  | inr ((y, ys), found) ↦
      let (p, r, split, others) = remove_at_split n q y ys found in
      let taken : ◌≡◌ {A = Option (A × List A)} (some (y, x ∷ ys)) (some (e, rest)) =
        rw found at h in
      (x ∷ p, r, cc, cc)
]

abbrev pub one_if : Bool → ℕ
one_if true = 1
one_if false = 0

-- How often a text is in a list.
abbrev pub times : Bytes → List Bytes → ℕ
times k [] = 0
times k (name ∷ names) = one_if (same_key k name) + times k names

pub times-append : (k : Bytes) (xs ys : List Bytes) → times k (xs ++ ys) ≡ times k xs + times k ys
times-append k [] ys = omega arith
times-append k (x ∷ xs) ys = omega (arith, times-append k xs ys)

pub times-dequeue :
    (k : Bytes) (pick : Option ℕ) (q : List Bytes) (e : Bytes) (rest : List Bytes)
    → dequeue pick q ≡ some (e, rest)
    → times k q ≡ one_if (same_key k e) + times k rest
times-dequeue k none q e rest h = absurd cc
times-dequeue k (some n) q e rest h =
    let (p, r, split, others) = remove_at_split n q e rest h in
    rw (split, others) (omega (arith, times-append k p (e ∷ r), times-append k p r))
