-- ===== src/ClickTbl/Stream.antt =====
-- A `FILE` that is being written. The device takes `room` more bytes; `fwrite` on a full one drops
-- what does not fit, and src/flexetl/clicktbl.cpp does not look at its result.
use flexetl.Prelude.{
  ℕ, zero, suc, ◌-◌, ◌%◌, ◌^◌, ◌≡◌, refl, ap, List, [], ◌∷◌, ◌++◌, append_assoc, append-nil, arith,
  length, take, length-append,
}
use flexetl.Prelude.Words.{Bytes, to_le}

pub record Stream : Type 0 where
  pub written : Bytes
  pub room : ℕ

-- The stream that `fopen(fileName, "wb")` returns, over a device with room for so many bytes.
abbrev pub opened : ℕ → Stream
opened room = record { written = []; room = room }

unfoldable pub fwrite : Bytes → Stream → Stream
fwrite bs fl = record { written = fl.written ++ take fl.room bs; room = fl.room - length bs }

-- `fwrite(&n, sizeof(n), 1, fl)` for an `int`, and for a member of the union of 64 bits.
unfoldable pub fwrite_int : ℕ → Stream → Stream
fwrite_int n = fwrite (to_le 4 (n % 2 ^ 32))

unfoldable pub fwrite_word : ℕ → Stream → Stream
fwrite_word n = fwrite (to_le 8 n)

take-append {ℓ} :
    {A : Type ℓ} (n : ℕ) (xs ys : List A) → take n (xs ++ ys) ≡ take n xs ++ take (n - length xs) ys
take-append zero xs ys = let e : zero - length xs ≡ zero = omega arith in rw e
take-append (suc n) [] ys = let e : suc n - zero ≡ suc n = omega arith in rw e
take-append {A} (suc n) (x ∷ xs) ys =
    let e : suc n - suc (length xs) ≡ n - length xs = omega arith in
    rw e (ap (λ (l : List A). x ∷ l) (take-append n xs ys))

take-nil : (n : ℕ) → ◌≡◌ {A = Bytes} (take n []) []
take-nil zero = refl
take-nil (suc n) = refl

-- Two writes are one write of both.
pub fwrite-fwrite : (xs ys : Bytes) (fl : Stream) → fwrite ys (fwrite xs fl) ≡ fwrite (xs ++ ys) fl
unfolding fwrite
fwrite-fwrite xs ys fl = simp (take-append, append_assoc, length-append) (ground arith)

pub fwrite-nil : (fl : Stream) → fwrite [] fl ≡ fl
unfolding fwrite
fwrite-nil fl = ground (arith, take-nil fl.room, append-nil fl.written)
