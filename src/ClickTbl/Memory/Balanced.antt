-- ===== src/ClickTbl/Memory/Balanced.antt =====
-- What is allocated around the calls on a column.
use flexetl.Prelude.{
  ℕ, ◌+◌, ◌≡◌, refl, Bool, ◌++◌, some, arith, inl, inr, Bool-cases, ◌==◌, if◌then◌else◌,
}
use flexetl.ClickTbl.Memory.{
  Cell, Cells, nil, Live, reset_all, owned, owned_all, size, push, pad, resize, append, revert,
}
use flexetl.ClickTbl.Memory.Freed.{
  times_in, first, times_in-append, Holds, reset_all-Frees, relocate-if, emplace_back_lem,
  cut-Frees, times_in-pad, times_in-push,
}

-- What is allocated is what was at the start and what some values own.
abbrev pub Balanced : Live → Cells → Live → Type 0
Balanced start cs live = (a : ℕ) → times_in a live ≡ times_in a start + times_in a (owned_all cs)

Balanced-Holds :
    (start : Live) (cs : Cells) (live : Live) → Balanced start cs live → Holds (owned_all cs) live
Balanced-Holds start cs live h = λ a. omega (arith, h a)

-- The vector that `resize` makes.
abbrev pub resized : ℕ → Cells → Cells
resized n cs = pad n (first n cs)

pub resize-Balanced :
    (full : Bool) (n : ℕ) (cs : Cells) (start live : Live)
    → Balanced start cs live
    → (rest : Live) × (resize full n cs live ≡ some (resized n cs, rest))
      × Balanced start (resized n cs) rest
unfolding resize
resize-Balanced full n cs start live h =
    let (rest, done, counted) = cut-Frees n cs live (Balanced-Holds start cs live h) in
    (
      rest,
      rw (resize, relocate-if full cs live, done) refl,
      λ a. omega (arith, h a, counted a, times_in-pad a n (first n cs)),
    )

-- The vector that `append` makes.
abbrev pub appended : ℕ → Cell → Cells → Cells
appended at val cs = push (if size cs == at then cs else resized at cs) val

pub append-Balanced :
    (full full' : Bool) (at : ℕ) (val : Cell) (cs : Cells) (start live : Live)
    → Balanced start cs live
    → (rest : Live) × (append full full' at val cs (owned val ++ live)
        ≡ some (appended at val cs, rest))
      × Balanced start (appended at val cs) rest
unfolding append
append-Balanced full full' at val cs start live h =
    let taken = owned val ++ live in
    let h' : Balanced (owned val ++ start) cs taken = λ a.
      omega (arith, h a, times_in-append a (owned val) live, times_in-append a (owned val) start) in
    elim (Bool-cases (size cs == at)) [
      | inl e ↦ (
        taken,
        rw (append, e, emplace_back_lem full' cs val taken) refl,
        λ a.
            rw e (omega (arith, h' a, times_in-append a (owned val) start, times_in-push a cs val)),
      )
      | inr e ↦
          let (rest, done, counted) = resize-Balanced full at cs (owned val ++ start) taken h' in
          (
            rest,
            rw (append, e, done, emplace_back_lem full' (resized at cs) val rest) refl,
            λ a. rw e (
                omega (
                  arith,
                  counted a,
                  times_in-append a (owned val) start,
                  times_in-push a (resized at cs) val,
                )),
          )
    ]

-- The vector that `revert` makes.
abbrev pub reverted : ℕ → Cells → Cells
reverted at cs = if at == 0 then nil else resized at cs

pub revert-Balanced :
    (full : Bool) (at : ℕ) (cs : Cells) (start live : Live)
    → Balanced start cs live
    → (rest : Live) × (revert full at cs live ≡ some (reverted at cs, rest))
      × Balanced start (reverted at cs) rest
unfolding revert owned
revert-Balanced full at cs start live h = elim (Bool-cases (at == 0)) [
  | inl e ↦
      let (rest, done, counted) = reset_all-Frees cs live (Balanced-Holds start cs live h) in
      (rest, rw (revert, e, done) refl, λ a. rw e (omega (arith, h a, counted a)))
  | inr e ↦
      let (rest, done, counted) = resize-Balanced full at cs start live h in
      (rest, rw (revert, e, done) refl, λ a. rw e (counted a))
]

-- The destructor.
pub reset_all-Balanced :
    (cs : Cells) (start live : Live)
    → Balanced start cs live
    → (rest : Live) × (reset_all cs live ≡ some rest)
      × ((a : ℕ) → times_in a rest ≡ times_in a start)
reset_all-Balanced cs start live h =
    let (rest, done, counted) = reset_all-Frees cs live (Balanced-Holds start cs live h) in
    (rest, done, λ a. omega (arith, h a, counted a))
