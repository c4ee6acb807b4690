-- ===== src/Main/PidFile/Exclusion.antt =====
-- src/stem/pid_file.h: of the processes that use one pid file, one runs at a time.
use flexetl.Prelude.{
  ℕ, ◌≤◌, ◌≡◌, ◌≢◌, refl, true, false, List, [], ◌∷◌, ◌++◌, length, length-append, All, arith,
  Bool-cases, Option-cases, inl, inr,
}
use flexetl.Prelude.Words.{Bytes}
use flexetl.Main.PidFile.{Os, returned, format_pid, write_pid, pid_file}

module _ {W : Type 0} (os : Os W) (ends : ℕ → W → W) (holds : W → ℕ → Type 0) where
  -- What is documented of the lock: it is refused while another process holds it, and held by the
  -- process that it is given to; no other call and no end of another process takes it away.
  pub record Locks : Type 0 where
    pub lockf-refused : (p q : ℕ) (w : W) → holds w q → q ≢ p → (os.lockf p w).1 ≡ false
    pub lockf-held : (p : ℕ) (w : W) → (os.lockf p w).1 ≡ true → holds (os.lockf p w).0 p
    pub lockf-keeps : (p q : ℕ) (w : W) → holds w q → holds (os.lockf p w).0 q
    pub opens-keeps : (p q : ℕ) (w : W) → holds w q → holds (os.opens p w).0 q
    pub write-keeps : (p q : ℕ) (text : Bytes) (w : W) → holds w q → holds (os.write p text w).0 q
    pub ends-keeps : (p q : ℕ) (w : W) → holds w q → q ≢ p → holds (ends p w) q

  -- The processes that are behind the constructor, with the state of the file, after some others
  -- started and ended. A process that starts has the number of none of them; one that does not get
  -- behind the constructor ends.
  pub data Reaches (w₀ : W) : W → List ℕ → Type 0 where
    begin : Reaches w₀ w₀ []
    starts :
        (w : W) (live : List ℕ) (p : ℕ)
        → Reaches w₀ w live
        → All (λ q. q ≢ p) live
        → (pid_file os true p w).1 ≡ returned
        → Reaches w₀ (pid_file os true p w).0 (p ∷ live)
    fails :
        (w : W) (live : List ℕ) (p : ℕ)
        → Reaches w₀ w live
        → All (λ q. q ≢ p) live
        → (pid_file os true p w).1 ≢ returned
        → Reaches w₀ (ends p (pid_file os true p w).0) live
    stops :
        (w : W) (before after : List ℕ) (p : ℕ)
        → Reaches w₀ w (before ++ p ∷ after)
        → Reaches w₀ (ends p w) (before ++ after)

module _ {W : Type 0} (os : Os W) (ends : ℕ → W → W) (holds : W → ℕ → Type 0)
    (locks : Locks os ends holds) where
  write_pid-keeps : (p q : ℕ) (w : W) → holds w q → holds (write_pid os p w).0 q
  unfolding write_pid
  write_pid-keeps p q w h = elim (Option-cases (format_pid p)) [
    | inl e ↦ rw (write_pid, e) h
    | inr (text, e) ↦ rw (write_pid, e) (locks.write-keeps p q text w h)
  ]

  pid_file-keeps : (p q : ℕ) (w : W) → holds w q → holds (pid_file os true p w).0 q
  unfolding pid_file
  pid_file-keeps p q w h =
      let h₁ = locks.opens-keeps p q w h in
      let w₁ = (os.opens p w).0 in
      let h₂ = locks.lockf-keeps p q w₁ h₁ in
      elim (Bool-cases (os.opens p w).1) [
        | inr e ↦ rw e h₁
        | inl e ↦ rw e (elim (Bool-cases (os.lockf p w₁).1) [
          | inr e' ↦ rw e' h₂
          | inl e' ↦ rw e' (write_pid-keeps p q (os.lockf p w₁).0 h₂)
        ])
      ]

  -- A process that gets behind the constructor holds the lock.
  pid_file-locked :
      (p : ℕ) (w : W)
      → (pid_file os true p w).1 ≡ returned
      → ((os.lockf p (os.opens p w).0).1 ≡ true) × holds (pid_file os true p w).0 p
  unfolding pid_file
  pid_file-locked p w r = elim (Bool-cases (os.opens p w).1) [
    | inr e ↦ absurd (cc (rw e at r))
    | inl e ↦ elim (Bool-cases (os.lockf p (os.opens p w).0).1) [
      | inr e' ↦ absurd (cc (rw (e, e') at r))
      | inl e' ↦ rw (e, e') (refl, write_pid-keeps p p _ (locks.lockf-held p (os.opens p w).0 e'))
    ]
  ]

  -- A lock that is held by another process keeps a process out.
  none-live :
      (p : ℕ) (w : W) (live : List ℕ)
      → All (holds w) live
      → All (λ q. q ≢ p) live
      → (pid_file os true p w).1 ≡ returned
      → live ≡ []
  none-live p w [] held apart r = refl
  none-live p w (q ∷ live) (h, held) (differ, apart) r =
      let refused = locks.lockf-refused p q _ (locks.opens-keeps p q w h) differ in
      absurd (cc (refused, (pid_file-locked p w r).0))

  AllHold-map :
      (w w' : W) (live : List ℕ)
      → ((q : ℕ) → holds w q → holds w' q)
      → All (holds w) live
      → All (holds w') live
  AllHold-map w w' [] f h = tt
  AllHold-map w w' (q ∷ live) f (h, hs) = (f q h, AllHold-map w w' live f hs)

  AllHold-ends :
      (p : ℕ) (w : W) (live : List ℕ)
      → All (holds w) live
      → All (λ q. q ≢ p) live
      → All (holds (ends p w)) live
  AllHold-ends p w [] h d = tt
  AllHold-ends p w (q ∷ live) (h, hs) (d, ds) =
      (locks.ends-keeps p q w h d, AllHold-ends p w live hs ds)

  abbrev IsAlone : W → List ℕ → Type 0
  IsAlone w live = All (holds w) live × (length live ≤ 1)

  none-left :
      (before after : List ℕ) (p : ℕ) → length (before ++ p ∷ after) ≤ 1 → before ++ after ≡ []
  none-left [] [] p h = refl
  none-left [] (q ∷ after) p h = absurd (omega arith)
  none-left (q ∷ before) after p h = absurd (omega (arith, length-append before (p ∷ after)))

  Reaches-IsAlone : (w₀ w : W) (live : List ℕ) → Reaches os ends holds w₀ w live → IsAlone w live
  Reaches-IsAlone w₀ w live begin = (tt, omega arith)
  Reaches-IsAlone w₀ w' live (starts w others p r apart ok) =
      let (held, _) = Reaches-IsAlone w₀ w others r in
      let none' = none-live p w others held apart ok in
      rw none' (((pid_file-locked p w ok).1, tt), omega arith)
  Reaches-IsAlone w₀ w' live (fails w others p r apart failed) =
      let (held, few) = Reaches-IsAlone w₀ w others r in
      let held' = AllHold-map w _ live (λ q. pid_file-keeps p q w) held in
      (AllHold-ends p _ live held' apart, few)
  Reaches-IsAlone w₀ w' live (stops w before after p r) =
      let (held, few) = Reaches-IsAlone w₀ w _ r in
      rw (none-left before after p few) (tt, omega arith)

  -- If the lock does what it is documented to, at most one of the processes that use one pid file is
  -- behind the constructor, and it holds the lock, whichever of them started and ended before.
  pub Reaches-length :
      (w₀ w : W) (live : List ℕ)
      → Reaches os ends holds w₀ w live
      → (length live ≤ 1) × All (holds w) live
  Reaches-length w₀ w live r = let (held, few) = Reaches-IsAlone w₀ w live r in (few, held)
