-- ===== src/ClickTbl/Encoding/Reads.antt =====
-- A reader that reads a value off a printed form: off the whole form it returns the value and
-- what follows, and off a part of it, cut short anywhere, it throws.
use flexetl.Prelude.{
  ℕ, suc, ◌/◌, ◌^◌, ◌<◌, ◌≡◌, refl, ap, subst, ◌⊎◌, inl, inr, [], ◌∷◌, ◌++◌, append-nil,
  append_assoc, arith, length, take, drop, length-append, lt→ltb, ge→ltb,
}
use flexetl.Prelude.Words.{Bytes, to_le, of_le-to_le}
use flexetl.Result.{Error, Reader, ok, throws, pure, fread, fread_word, ◌>>=◌}

pub record Reads {ℓ} {A : Type ℓ} (r : Reader A) (bs : Bytes) (a : A) : Type ℓ where
  pub whole : (rest : Bytes) → r (bs ++ rest) ≡ ok (a, rest)
  pub short : (q : Bytes) (x : ℕ) (s : Bytes) → bs ≡ q ++ x ∷ s → (e : Error) × (r q ≡ throws e)

-- A cut of two parts lies in the first, or behind it.
abbrev Cut : Bytes → Bytes → Bytes → ℕ → Bytes → Type 0
Cut xs ys q x s =
    ((x' : ℕ) × (s' : Bytes) × (xs ≡ q ++ x' ∷ s'))
    ⊎ ((q' : Bytes) × (q ≡ xs ++ q') × (ys ≡ q' ++ x ∷ s))

Cut-append : (xs ys q : Bytes) (x : ℕ) (s : Bytes) → xs ++ ys ≡ q ++ x ∷ s → Cut xs ys q x s
Cut-append [] ys q x s h = inr (q, refl, h)
Cut-append (y ∷ xs) ys [] x s h = inl (y, xs, refl)
Cut-append (y ∷ xs) ys (z ∷ q) x s h = elim (Cut-append xs ys q x s (cc)) [
  | inl (x', s', e) ↦ inl (x', s', cc)
  | inr (q', e, f) ↦ inr (q', (cc), f)
]

pub Reads-pure {ℓ} : {A : Type ℓ} (a : A) → Reads (pure a) [] a
Reads-pure a = record { whole = λ rest. refl; short = nothing }
  where
    nothing :
        (q : Bytes) (x : ℕ) (s : Bytes) → [] ≡ q ++ x ∷ s → (e : Error) × (pure a q ≡ throws e)
    nothing [] x s h = absurd (cc)
    nothing (y ∷ q) x s h = absurd (cc)

module _ {ℓ κ} {A : Type ℓ} {B : Type κ} where
  pub Reads-bind :
      {r : Reader A} (k : A → Reader B) {xs ys : Bytes} {a : A} {b : B}
      → Reads r xs a
      → Reads (k a) ys b
      → Reads (r >>= k) (xs ++ ys) b
  Reads-bind {r} k {xs} {ys} {a} {b} p q = record {
    whole = λ rest. rw (append_assoc, p.whole (ys ++ rest)) (q.whole rest);
    short = λ cut x s h. elim (Cut-append xs ys cut x s h) [
      | inl (x', s', e) ↦ let (e', thrown) = p.short cut x' s' e in (e', rw thrown)
      | inr (cut', e, f) ↦
          let (e', thrown) = q.short cut' x s f in (e', rw (e, p.whole cut') thrown)
    ];
  }

  -- The last step may be a value.
  pub Reads-map :
      {r : Reader A} (k : A → Reader B) {xs : Bytes} {a : A} {b : B}
      → Reads r xs a
      → Reads (k a) [] b
      → Reads (r >>= k) xs b
  Reads-map {r} k {xs} {a} {b} p q =
      subst (λ bs. Reads (r >>= k) bs b) (append-nil xs) (Reads-bind k p q)

take-length : (xs ys : Bytes) → take (length xs) (xs ++ ys) ≡ xs
take-length [] ys = refl
take-length (x ∷ xs) ys = ap (λ (l : Bytes). x ∷ l) (take-length xs ys)

drop-length : (xs ys : Bytes) → drop (length xs) (xs ++ ys) ≡ ys
drop-length [] ys = refl
drop-length (x ∷ xs) ys = drop-length xs ys

pub Reads-fread : (n : ℕ) (e : Error) (xs : Bytes) → length xs ≡ n → Reads (fread n e) xs xs
unfolding fread
Reads-fread n e xs h = record {
  whole = λ rest. rw (← h) (
      rw (ge→ltb (length (xs ++ rest)) (length xs) (omega (arith, length-append xs rest)))
        (rw (take-length xs rest, drop-length xs rest)));
  short = λ q x s p.
      (e, rw (lt→ltb (length q) n (omega (arith, ap length p, length-append q (x ∷ s)))));
}

length-to_le : (w n : ℕ) → length (to_le w n) ≡ w
unfolding to_le
length-to_le ℕ.zero n = refl
length-to_le (suc w) n = ap suc (length-to_le w (n / 256))

pub Reads-fread_word : (w n : ℕ) (e : Error) → n < 256 ^ w → Reads (fread_word w e) (to_le w n) n
unfolding fread_word
Reads-fread_word w n e h =
    Reads-map _ (Reads-fread w e (to_le w n) (length-to_le w n))
      (rw (of_le-to_le w n h) (Reads-pure n))
