-- ===== src/Click2Db/LifeProc/Attempts/Count.antt =====
-- Counting the files of one name in the queue of `Click2DB`.
use flexetl.Prelude.{
  ℕ, ◌+◌, ◌-◌, ◌*◌, ◌<◌, ◌≡◌, refl, List, [], ◌∷◌, ◌++◌, map, Option, none, some, arith, inl, inr,
  Bool-cases, All,
}
use flexetl.Prelude.Words.{Bytes}
use flexetl.StdMap.{same_key}
use flexetl.Click2Db.State.{State, Entry, Move}
use flexetl.Queue.{one_if, times, dequeue, remove_at_split}

-- How often a name is in the queue, and among the moved files.
abbrev pub times_queued : Bytes → List Entry → ℕ
times_queued k [] = 0
times_queued k ((count, name) ∷ q) = one_if (same_key k name) + times_queued k q

abbrev pub times_moved : Bytes → List Move → ℕ
times_moved k [] = 0
times_moved k (m ∷ ms) = one_if (same_key k m.name) + times_moved k ms

-- The attempts that the queue has left for a name.
abbrev pub left : Bytes → List Entry → ℕ
left k [] = 0
left k ((count, name) ∷ q) = one_if (same_key k name) * (3 - count) + left k q

pub times_queued-append :
    (k : Bytes) (p q : List Entry) → times_queued k (p ++ q) ≡ times_queued k p + times_queued k q
times_queued-append k [] q = omega arith
times_queued-append k (e ∷ p) q = omega (arith, times_queued-append k p q)

pub left-append : (k : Bytes) (p q : List Entry) → left k (p ++ q) ≡ left k p + left k q
left-append k [] q = omega arith
left-append k (e ∷ p) q = omega (arith, left-append k p q)

pub times_queued-map :
    (k : Bytes) (names : List Bytes)
    → times_queued k (map (λ (name : Bytes). (0, name)) names) ≡ times k names
times_queued-map k [] = refl
times_queued-map k (name ∷ names) = omega (arith, times_queued-map k names)

pub left-map :
    (k : Bytes) (names : List Bytes)
    → left k (map (λ (name : Bytes). (0, name)) names) ≡ 3 * times k names
left-map k [] = refl
left-map k (name ∷ names) = elim (Bool-cases (same_key k name)) [
  | inl e ↦ rw e (omega (arith, left-map k names))
  | inr e ↦ rw e (omega (arith, left-map k names))
]

-- No entry of the queue failed three times.
abbrev pub IsFresh : List Entry → Type 0
IsFresh q = All (λ (e : Entry). e.0 < 3) q

pub IsFresh-append : (p q : List Entry) → IsFresh p → IsFresh q → IsFresh (p ++ q)
IsFresh-append [] q hp hq = hq
IsFresh-append (e ∷ p) q (h, hp) hq = (h, IsFresh-append p q hp hq)

pub IsFresh-middle :
    (p : List Entry) (e : Entry) (r : List Entry)
    → IsFresh (p ++ e ∷ r)
    → (e.0 < 3) × IsFresh (p ++ r)
IsFresh-middle [] e r (h, hr) = (h, hr)
IsFresh-middle (x ∷ p) e r (h, hs) = let (he, hr) = IsFresh-middle p e r hs in (he, (h, hr))

pub IsFresh-map : (names : List Bytes) → IsFresh (map (λ (name : Bytes). (0, name)) names)
IsFresh-map [] = tt
IsFresh-map (name ∷ names) = (omega arith, IsFresh-map names)

-- How often a file of this name arrived, was queued or was moved; and what it was loaded and may
-- still be.
abbrev pub handled : Bytes → State → ℕ
handled k s = times_queued k s.queue + times_moved k s.moves

abbrev pub attempts : Bytes → State → ℕ
attempts k s = times k s.loads + left k s.queue

-- What is known of the queue `q` when an entry is taken out of it.
abbrev pub Removed : Entry → List Entry → List Entry → Type 0
Removed (count, name) rest q =
    (count < 3)
    × IsFresh rest
    × ((k : Bytes) → times_queued k q ≡ one_if (same_key k name) + times_queued k rest)
    × ((k : Bytes) → left k q ≡ one_if (same_key k name) * (3 - count) + left k rest)

pub dequeue-Removed :
    (pick : Option ℕ) (q : List Entry) (e : Entry) (rest : List Entry)
    → IsFresh q
    → dequeue pick q ≡ some (e, rest)
    → Removed e rest q
dequeue-Removed none q e rest fresh h = absurd cc
dequeue-Removed (some n) q (count, name) rest fresh h =
    let (p, r, split, others) = remove_at_split n q (count, name) rest h in
    let (low, fresh_rest) = IsFresh-middle p (count, name) r (rw split at fresh) in
    (
      low,
      rw others fresh_rest,
      λ k.
          rw (split, others)
            (omega (arith, times_queued-append k p ((count, name) ∷ r), times_queued-append k p r)),
      λ k.
          rw (split, others)
            (omega (arith, left-append k p ((count, name) ∷ r), left-append k p r)),
    )
