-- ===== src/Json2Click/LifeProc/Stamps.antt =====
-- The files that `dump` writes have different stamps.
use flexetl.Prelude.{
  ℕ, ◌≤◌, ◌<◌, ◌≡◌, ◌≢◌, refl, ap, ◌⊎◌, Bool, true, false, ◌&&◌, List, [], ◌∷◌, Option, none, some,
  arith, inl, inr, Bool-cases, ◌==◌, All,
}
use flexetl.Prelude.Words.{Bytes}
use flexetl.ClickTbl.Table.{flush_tbl}
use flexetl.ClickTbl.Stream.{Stream}
use flexetl.Json2Click.Line.{Parsed}
use flexetl.Json2Click.State.{
  State, Stamp, FileName, SaveCall, stamped, named, is_zero, call_save, next_stamp, save_now, dump,
}
use flexetl.Json2Click.State.Dump.{dump_cases}
use flexetl.Json2Click.LifeProc.{
  Moment, FileJob, FileRun, read_line, finish_file, move_file, life_proc,
}
use flexetl.Json2Click.LifeProc.Walk.{NeverBack, life_proc_walk}

-- The number at the end of a stamp; there is none for the first save of a second.
abbrev number : Option ℕ → ℕ
number none = 0
number (some n) = n

-- A stamp that was given at second `t` with counter `n`, or before.
abbrev IsBefore : ℕ → ℕ → FileName → Type 0
IsBefore t n (stamped st) = (st.second < t) ⊎ ((st.second ≡ t) × (number st.counter ≤ n))
IsBefore t n (named name) = Unit

abbrev Differ : FileName → FileName → Type 0
Differ (stamped a) (stamped b) = a ≢ b
Differ _ _ = Unit

-- No two of the stamps are the same.
abbrev pub HasDifferentStamps : List SaveCall → Type 0
HasDifferentStamps [] = Unit
HasDifferentStamps (c ∷ cs) =
    All (λ (d : SaveCall). Differ c.name d.name) cs × HasDifferentStamps cs

abbrev pub IsStamped : ℕ → State → Type 0
IsStamped lo s =
    (s.save_time ≤ lo)
    × All (λ (c : SaveCall). IsBefore s.save_time s.save_counter c.name) s.calls
    × HasDifferentStamps s.calls

All-weaken :
    (P Q : FileName → Type 0) (cs : List SaveCall)
    → ((n : FileName) → P n → Q n)
    → All (λ (c : SaveCall). P c.name) cs
    → All (λ (c : SaveCall). Q c.name) cs
All-weaken P Q [] f h = tt
All-weaken P Q (c ∷ cs) f (p, ps) = (f c.name p, All-weaken P Q cs f ps)

IsBefore-later :
    (t n t' n' : ℕ)
    → (t < t') ⊎ ((t ≡ t') × (n ≤ n'))
    → (name : FileName) → IsBefore t n name
    → IsBefore t' n' name
IsBefore-later t n t' n' h (stamped st) p = ground arith
IsBefore-later t n t' n' h (named name) p = tt

IsBefore-Differ :
    (t n : ℕ) (a : Stamp)
    → (t < a.second) ⊎ ((t ≡ a.second) × (n < number a.counter))
    → (name : FileName) → IsBefore t n name
    → Differ (stamped a) name
IsBefore-Differ t n a h (stamped st) p =
    λ e. ground (arith, ap (λ (x : Stamp). x.second) e, ap (λ (x : Stamp). number x.counter) e)
IsBefore-Differ t n a h (named name) p = tt

next_stamp_lem :
    (now : ℕ) (s : State)
    → s.save_time ≤ now
    → let (st, counter) = next_stamp now s in
      (st.second ≡ now)
      × (number st.counter ≡ counter)
      × ((s.save_time < now) ⊎ ((s.save_time ≡ now) × (s.save_counter < counter)))
unfolding next_stamp
next_stamp_lem now s h = elim (Bool-cases (now == s.save_time)) [
  | inl e ↦ rw e (refl, ground arith, ground arith)
  | inr e ↦ rw e (refl, refl, ground arith)
]

save_now-IsStamped :
    (now : ℕ) (fl : Option Stream) (s : State) (lo : ℕ)
    → lo ≤ now
    → IsStamped lo s
    → IsStamped now (save_now now fl s)
unfolding save_now call_save flush_tbl
save_now-IsStamped now fl s lo h (time, before, different) =
    let (st, counter) = next_stamp now s in
    let (second, num, newer) = next_stamp_lem now s (omega arith) in
    (
      omega arith,
      (
        inr (second, omega arith),
        All-weaken (IsBefore s.save_time s.save_counter) (IsBefore now counter) s.calls
            (IsBefore-later s.save_time s.save_counter now counter (ground arith)) before,
      ),
      (
        All-weaken (IsBefore s.save_time s.save_counter) (Differ (stamped st)) s.calls
            (IsBefore-Differ s.save_time s.save_counter st (ground arith)) before,
        different,
      ),
    )

dump-IsStamped :
    (forced : Bool) (m : Moment) (s : State) (lo : ℕ)
    → lo ≤ m.now
    → IsStamped lo s
    → IsStamped m.now (dump forced m.now m.opened s)
dump-IsStamped forced m s lo h (time, before, different) =
    dump_cases (IsStamped m.now) forced m.now m.opened s (λ _. (omega arith, before, different))
      (λ _ z. (
        omega arith,
        All-weaken (IsBefore s.save_time s.save_counter) (IsBefore m.now s.save_counter) s.calls
            (IsBefore-later s.save_time s.save_counter m.now s.save_counter (ground arith)) before,
        different,
      ))
      (λ _ _ _ _. (omega arith, before, different))
      (λ _. save_now-IsStamped m.now m.opened s lo h (time, before, different))

read_line-IsStamped :
    (parse : Bytes → Parsed) (line : Bytes) (m : Moment) (r : FileRun) (lo : ℕ)
    → lo ≤ m.now
    → IsStamped lo r.state
    → IsStamped m.now (read_line parse line m r).state
unfolding read_line
read_line-IsStamped parse line m r lo h p = elim (Bool-cases (is_zero r.state.block_size)) [
  | inl e ↦ rw e (omega (arith, p.0), p.1, p.2)
  | inr e ↦ rw e (dump-IsStamped false m _ lo h p)
]

All-named :
    (name : Bytes) (cs : List SaveCall) → All (λ (c : SaveCall). Differ (named name) c.name) cs
All-named name [] = tt
All-named name (c ∷ cs) = (tt, All-named name cs)

finish_file-IsStamped :
    (parse : Bytes → Parsed) (metrics : Bool) (job : FileJob) (r : FileRun) (lo : ℕ)
    → IsStamped lo r.state
    → IsStamped lo (move_file parse job (finish_file parse metrics job.name job.own r))
unfolding finish_file move_file call_save
finish_file-IsStamped parse true job r lo (time, before, different) =
    elim (Bool-cases (is_zero r.state.delay && is_zero r.state.block_size)) [
      | inl e ↦ rw e (time, (tt, before), (All-named job.name r.state.calls, different))
      | inr e ↦ rw e (time, before, different)
    ]
finish_file-IsStamped parse false job r lo (time, before, different) =
    elim (Bool-cases (is_zero r.state.delay && is_zero r.state.block_size)) [
      | inl e ↦ rw e (time, (tt, before), (All-named job.name r.state.calls, different))
      | inr e ↦ rw e (time, before, different)
    ]

-- While the clock of the saves never goes back, no two saves of a `lifeProc` by `dump` get the same
-- stamp, also those within one second: from no saves at all and a counter of any value, the stamps
-- of all calls of `save` are pairwise different.
pub life_proc-HasDifferentStamps :
    (parse : Bytes → Parsed) (metrics : Bool) (js : List (Option FileJob × Moment)) (last : Moment)
    (s : State)
    → NeverBack s.save_time js last
    → s.calls ≡ []
    → HasDifferentStamps (life_proc parse metrics js last s).calls
life_proc-HasDifferentStamps parse metrics js last s c e =
    (life_proc_walk parse metrics IsStamped (λ lo hi s h p. (omega (arith, p.0), p.1, p.2))
      (read_line-IsStamped parse) (finish_file-IsStamped parse metrics) dump-IsStamped js last s
      s.save_time c (omega arith, rw e tt, rw e tt)).2
