-- ===== src/Main/PidFile/Content.antt =====
-- src/stem/pid_file.h: what the constructor leaves in the file. It does not truncate the file.
use flexetl.Prelude.{
  ℕ, zero, suc, ◌+◌, ◌/◌, ◌%◌, ◌^◌, ◌≤◌, ◌<◌, ◌≡◌, ◌⊎◌, refl, ap, ◌∙◌, true, [], ◌∷◌, ◌++◌, Option,
  none, some, length, length-append, append_assoc, subst, drop, ltb, lt→ltb, ltb→lt, arith, inl,
  inr, Bool-cases,
}
use flexetl.Prelude.Words.{Bytes}
use native.Mathlib.Nat.{pow-suc}
use flexetl.ClickTbl.Load.{c_string}
use flexetl.ClickTbl.Getters.Decimal.{digits, show_unsigned}
use flexetl.ClickTbl.Getters.Print.{digits_small, digits_large, scan_long-line}
use flexetl.ClickTbl.Getters.Scan.{scan_long}
use flexetl.Main.PidFile.{Os, Ending, returned, exited, format_pid, wrote_all, write_pid, pid_file}

length-digits : (f n g : ℕ) → n < 10 ^ suc g → length (digits f n) ≤ suc g
unfolding digits
length-digits zero n g h = omega arith
length-digits (suc f) n zero h = rw (digits_small f n (omega arith)) (omega arith)
length-digits (suc f) n (suc g) h = elim (Bool-cases (ltb n 10)) [
  | inl e ↦ rw (digits_small f n (ltb→lt n 10 e)) (omega arith)
  | inr e ↦
      let tens : n / 10 < 10 ^ suc g = omega (arith, pow-suc 10 (suc g)) in
      let last = (48 + n % 10) ∷ [] in
      rw (digits_large f n (ground arith))
        (omega (arith, length-append (digits f (n / 10)) last, length-digits f (n / 10) g tens))
]

-- A number of at most eight digits fits the buffer.
format_pid_lem : (pid : ℕ) → pid < 10 ^ 8 → format_pid pid ≡ some (show_unsigned pid ++ 10 ∷ [])
unfolding format_pid show_unsigned
format_pid_lem pid h =
    let short = length-digits 20 pid 7 h in
    let fits : length (digits 20 pid ++ 10 ∷ []) < 10 =
      omega (arith, length-append (digits 20 pid) (10 ∷ []), short) in
    rw (lt→ltb _ 10 fits) refl

module _ {W : Type 0} (os : Os W) (content : W → Bytes) where
  -- What is documented of the file, which is empty when `open` makes it: neither `open` without
  -- O_TRUNC nor the lock changes it, and what is written stands in place of its first bytes.
  pub record Contents : Type 0 where
    pub opens-content : (p : ℕ) (w : W) → content (os.opens p w).0 ≡ content w
    pub lockf-content : (p : ℕ) (w : W) → content (os.lockf p w).0 ≡ content w
    pub write-content :
        (p : ℕ) (text : Bytes) (w : W)
        → (os.write p text w).1 ≡ some (length text)
        → content (os.write p text w).0 ≡ text ++ drop (length text) (content w)

module _ {W : Type 0} (os : Os W) (content : W → Bytes) (contents : Contents os content) where
  wrote_all_lem : (text : Bytes) (o : Option ℕ) → wrote_all text o ≡ true → o ≡ some (length text)
  wrote_all_lem text none h = absurd cc
  wrote_all_lem text (some n) h = ap some (ground arith)

  -- How the constructor can end.
  abbrev Ends : ℕ → Bytes → W × Ending → Type 0
  Ends pid old (w, e) =
      (e ≡ exited)
      ⊎ ((e ≡ returned)
          × (content w ≡ show_unsigned pid ++ 10 ∷ drop (length (show_unsigned pid) + 1) old)
          × (scan_long (c_string (content w)) ≡ some pid))

  write_pid-Ends : (pid : ℕ) (w : W) → pid < 10 ^ 8 → Ends pid (content w) (write_pid os pid w)
  unfolding write_pid
  write_pid-Ends pid w h =
      let text = show_unsigned pid ++ 10 ∷ [] in
      elim (Bool-cases (wrote_all text (os.write pid text w).1)) [
        | inr e ↦ rw (write_pid, format_pid_lem pid h, e) (inl refl)
        | inl e ↦
            let whole : content (os.write pid text w).0
                ≡ show_unsigned pid ++ 10 ∷ drop (length (show_unsigned pid) + 1) (content w) =
              contents.write-content pid text w (wrote_all_lem text _ e)
              ∙ append_assoc (show_unsigned pid) (10 ∷ []) (drop (length text) (content w))
              ∙ ap (λ (n : ℕ). show_unsigned pid ++ 10 ∷ drop n (content w))
                  (length-append (show_unsigned pid) (10 ∷ [])) in
            rw (write_pid, format_pid_lem pid h, e)
              (inr (refl, whole, rw whole (scan_long-line pid _ (omega arith))))
      ]

  -- If the calls on the file do what they are documented to, and the number of the process has at
  -- most eight digits: the constructor does not overrun its buffer; when it returns, the file is the
  -- number and a line feed in place of as many of its old bytes, the rest of which stays, and `%ld`
  -- reads the number from it; and otherwise the process exits.
  pub pid_file-scan_long :
      (pid : ℕ) (w : W)
      → pid < 10 ^ 8
      → let (w', e) = pid_file os true pid w in
        (e ≡ exited)
        ⊎ ((e ≡ returned)
            × (content w'
                ≡ show_unsigned pid ++ 10 ∷ drop (length (show_unsigned pid) + 1) (content w))
            × (scan_long (c_string (content w')) ≡ some pid))
  unfolding pid_file
  pid_file-scan_long pid w h = elim (Bool-cases (os.opens pid w).1) [
    | inr e ↦ rw e (inl refl)
    | inl e ↦ rw e (elim (Bool-cases (os.lockf pid (os.opens pid w).0).1) [
      | inr e' ↦ rw e' (inl refl)
      | inl e' ↦ rw e' (
          subst (λ old. Ends pid old (write_pid os pid (os.lockf pid (os.opens pid w).0).0))
            (contents.lockf-content pid (os.opens pid w).0 ∙ contents.opens-content pid w)
            (write_pid-Ends pid (os.lockf pid (os.opens pid w).0).0 h))
    ])
  ]
