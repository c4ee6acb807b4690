-- ===== src/Backuper/Age.antt =====
-- src/flexetl/backuper.cpp: the age of a file.
use flexetl.Prelude.{
  ℕ, ◌+◌, ◌-◌, ◌*◌, ◌^◌, ◌<◌, ◌≤◌, ◌≡◌, ◌↔◌, refl, true, false, zero, suc, ◌/◌, arith, inl, inr,
  ltb, Bool-cases,
}
use flexetl.Prelude.Int.{ℤ, pos, negsuc}
use flexetl.Backuper.{opposite, hour, age_hours, exceeds}

-- The times are as many hours apart as the clean time and one more; with a negative clean time, the
-- file may be from a later time.
abbrev pub IsOlder : ℤ → ℕ → ℕ → Type 0
IsOlder (pos n) now time = time + (n + 1) * (3600 * 10 ^ 9) ≤ now
IsOlder (negsuc n) now time = time < now + (n + 1) * (3600 * 10 ^ 9)

-- A test and what it decides.
lt_div : (n x : ℕ) → (ltb n (x / hour) ≡ true) ↔ ((n + 1) * hour ≤ x)
lt_div n x = (λ h. ground arith, λ h. ground arith)

div_lt : (n x : ℕ) → (ltb (x / hour) (n + 1) ≡ true) ↔ (x < (n + 1) * hour)
div_lt n x = (λ h. ground arith, λ h. ground arith)

opposite_pos : (q n : ℕ) → exceeds (opposite q) (pos n) ≡ false
opposite_pos zero n = ground arith
opposite_pos (suc q) n = refl

opposite_negsuc : (q n : ℕ) → exceeds (opposite q) (negsuc n) ≡ ltb q (n + 1)
opposite_negsuc zero n = ground arith
opposite_negsuc (suc q) n = ground arith

pub exceeds-IsOlder :
    (clean_time : ℤ) (now time : ℕ)
    → (exceeds (age_hours now time) clean_time ≡ true) ↔ IsOlder clean_time now time
unfolding age_hours
exceeds-IsOlder (pos n) now time = elim (Bool-cases (ltb now time)) [
  | inl e ↦
      rw (age_hours, e, opposite_pos ((time - now) / hour) n)
        (λ h. absurd cc, λ h. absurd (ground arith))
  | inr e ↦
      let (there, back) = lt_div n (now - time) in
      let past : time ≤ now = ground arith in
      rw (age_hours, e) (λ h. omega (arith, past, there h), λ h. back (omega (arith, h)))
]
exceeds-IsOlder (negsuc n) now time = elim (Bool-cases (ltb now time)) [
  | inl e ↦
      let (there, back) = div_lt n (time - now) in
      let future : now < time = ground arith in
      rw (age_hours, e, opposite_negsuc ((time - now) / hour) n)
        (λ h. omega (arith, future, there h), λ h. back (omega (arith, future, h)))
  | inr e ↦
      let past : time ≤ now = ground arith in
      rw (age_hours, e) (λ h. omega (arith, past), λ h. refl)
]
