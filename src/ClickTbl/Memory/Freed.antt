-- ===== src/ClickTbl/Memory/Freed.antt =====
-- Each object of a column is freed once, and none is left.
use flexetl.Prelude.{
  ℕ, zero, suc, ◌+◌, ◌≤◌, ◌≡◌, refl, Bool, true, false, List, [], ◌∷◌, ◌++◌, Option, none, some,
  arith, inl, inr, Bool-cases, ◌==◌, ==_iff, if◌then◌else◌,
}
use flexetl.Queue.{one_if}
use flexetl.ClickTbl.Memory.{
  Cell, Cells, unknown, str, int, uint, double, array, bool, nil, cons, Live, free, reset,
  reset_all, moved_from, owned, owned_all, relocate, push, emplace_back, cut, pad,
}

-- How often an address is in a list.
abbrev pub times_in : ℕ → List ℕ → ℕ
times_in a [] = 0
times_in a (b ∷ live) = one_if (a == b) + times_in a live

pub times_in-append :
    (x : ℕ) (owns live : Live) → times_in x (owns ++ live) ≡ times_in x owns + times_in x live
times_in-append x [] live = omega arith
times_in-append x (b ∷ owns) live = omega (arith, times_in-append x owns live)

-- Some addresses are allocated, and freed each as often as it is among them.
abbrev pub Holds : List ℕ → Live → Type 0
Holds owns live = (a : ℕ) → times_in a owns ≤ times_in a live

abbrev Frees : List ℕ → Live → Option Live → Type 0
Frees owns live o =
    (rest : Live) × (o ≡ some rest)
    × ((a : ℕ) → times_in a rest + times_in a owns ≡ times_in a live)

free-Frees : (a : ℕ) (live : Live) → 1 ≤ times_in a live → Frees (a ∷ []) live (free a live)
unfolding free
free-Frees a [] h = absurd (omega arith)
free-Frees a (b ∷ live) h = elim (Bool-cases (a == b)) [
  | inl e ↦
      let same : a ≡ b = (==_iff a b).0 e in (live, rw (free, e) refl, λ x. rw same (omega arith))
  | inr e ↦
      let (rest, freed, counted) = free-Frees a live (ground arith) in
      (b ∷ rest, rw (free, e, freed) refl, λ x. omega (arith, counted x))
]

one_self : (a : ℕ) → one_if (a == a) ≡ 1
one_self a = let e : (a == a) ≡ true = (==_iff a a).1 refl in rw e refl

mutual
  unfolding reset owned

  reset-Frees :
      (c : Cell) (live : Live) → Holds (owned c) live → Frees (owned c) live (reset c live)
  reset-Frees (str (some a) s) live h = free-Frees a live (omega (arith, h a, one_self a))
  reset-Frees (str none s) live h = (live, refl, λ x. omega arith)
  reset-Frees (array (some a) cs) live h =
      let (rest, freed, counted) = reset_all-Frees cs live (λ x. omega (arith, h x)) in
      let (rest', freed', counted') =
        free-Frees a rest (omega (arith, h a, counted a, one_self a)) in
      (rest', rw freed freed', λ x. omega (arith, counted x, counted' x))
  reset-Frees (array none cs) live h = (live, refl, λ x. omega arith)
  reset-Frees unknown live h = (live, refl, λ x. omega arith)
  reset-Frees (int n) live h = (live, refl, λ x. omega arith)
  reset-Frees (uint n) live h = (live, refl, λ x. omega arith)
  reset-Frees (double n) live h = (live, refl, λ x. omega arith)
  reset-Frees (bool b) live h = (live, refl, λ x. omega arith)

  pub reset_all-Frees :
      (cs : Cells) (live : Live)
      → Holds (owned_all cs) live
      → Frees (owned_all cs) live (reset_all cs live)
  reset_all-Frees nil live h = (live, refl, λ x. omega arith)
  reset_all-Frees (cons c cs) live h =
      let both = times_in-append in
      let (rest, freed, counted) =
        reset-Frees c live (λ x. omega (arith, h x, both x (owned c) (owned_all cs))) in
      let (rest', freed', counted') =
        reset_all-Frees cs rest
          (λ x. omega (arith, h x, both x (owned c) (owned_all cs), counted x)) in
      (
        rest',
        rw freed freed',
        λ x. omega (arith, counted x, counted' x, both x (owned c) (owned_all cs)),
      )

-- What is left of a value that was moved owns nothing, so nothing happens when it is destroyed.
reset-moved_from : (c : Cell) (live : Live) → reset (moved_from c) live ≡ some live
unfolding reset moved_from
reset-moved_from (str p s) live = refl
reset-moved_from (array p cs) live = refl
reset-moved_from unknown live = refl
reset-moved_from (int n) live = refl
reset-moved_from (uint n) live = refl
reset-moved_from (double n) live = refl
reset-moved_from (bool b) live = refl

relocate_lem : (cs : Cells) (live : Live) → relocate cs live ≡ some live
unfolding relocate
relocate_lem nil live = refl
relocate_lem (cons c cs) live = rw (reset-moved_from c live) (relocate_lem cs live)

pub relocate-if :
    (full : Bool) (cs : Cells) (live : Live)
    → (if full then relocate cs live else some live) ≡ some live
relocate-if true cs live = relocate_lem cs live
relocate-if false cs live = refl

pub emplace_back_lem :
    (full : Bool) (cs : Cells) (val : Cell) (live : Live)
    → emplace_back full cs val live ≡ some (push cs val, live)
unfolding emplace_back
emplace_back_lem full cs val live =
    rw (emplace_back, relocate-if full cs live, reset-moved_from val live) refl

-- The values up to a size.
unfoldable pub first : ℕ → Cells → Cells
first n nil = nil
first zero (cons c cs) = nil
first (suc n) (cons c cs) = cons c (first n cs)

pub cut-Frees :
    (n : ℕ) (cs : Cells) (live : Live)
    → Holds (owned_all cs) live
    → (rest : Live) × (cut n cs live ≡ some (first n cs, rest))
      × ((a : ℕ)
          → times_in a rest + times_in a (owned_all cs)
            ≡ times_in a live + times_in a (owned_all (first n cs)))
unfolding cut first owned
cut-Frees n nil live h = (live, refl, λ a. refl)
cut-Frees zero (cons c cs) live h =
    let (rest, freed, counted) = reset_all-Frees (cons c cs) live h in
    (rest, rw freed refl, λ a. omega (arith, counted a))
cut-Frees (suc n) (cons c cs) live h =
    let (rest, freed, counted) =
      cut-Frees n cs live (λ a. omega (arith, h a, times_in-append a (owned c) (owned_all cs))) in
    (
      rest,
      rw freed refl,
      λ a. omega (
        arith,
        counted a,
        times_in-append a (owned c) (owned_all cs),
        times_in-append a (owned c) (owned_all (first n cs)),
      ),
    )

pub times_in-pad :
    (a n : ℕ) (cs : Cells) → times_in a (owned_all (pad n cs)) ≡ times_in a (owned_all cs)
unfolding pad owned
times_in-pad a zero cs = refl
times_in-pad a (suc n) nil = times_in-pad a n nil
times_in-pad a (suc n) (cons c cs) = omega (
  arith,
  times_in-pad a n cs,
  times_in-append a (owned c) (owned_all (pad n cs)),
  times_in-append a (owned c) (owned_all cs),
)

pub times_in-push :
    (a : ℕ) (cs : Cells) (d : Cell)
    → times_in a (owned_all (push cs d)) ≡ times_in a (owned_all cs) + times_in a (owned d)
unfolding push owned
times_in-push a nil d = omega (arith, times_in-append a (owned d) [])
times_in-push a (cons c cs) d = omega (
  arith,
  times_in-push a cs d,
  times_in-append a (owned c) (owned_all (push cs d)),
  times_in-append a (owned c) (owned_all cs),
)
