-- ===== src/Click2Db/LifeProc/Places.antt =====
-- src/flexetl/click2db.cpp: where `lifeProc` moves files to.
use flexetl.Prelude.{
  ◌+◌, ◌≡◌, ◌⊎◌, refl, ◌∙◌, Bool, true, false, not, List, [], ◌∷◌, Option, none, some, inl, inr,
  Option-cases, if◌then◌else◌, ltb, ℕ, All,
}
use flexetl.Prelude.Words.{Bytes}
use flexetl.StdMap.{Map}
use flexetl.Queue.{dequeue}
use flexetl.ClickTbl.Getters.{Platform}
use flexetl.ClickTbl.Load.{load}
use flexetl.ClickTbl.Table
use flexetl.ClickTbl.Table.{ClickTable}
use flexetl.Json2Click.State.{add_metric}
use flexetl.Click2Db.Convert.{Client}
use flexetl.Click2Db.Convert.Size.{Result-cases}
use flexetl.Click2Db.State.{
  State, Answers, Entry, Move, removed, Sending, sent, failed, crashed, send_table,
}
use flexetl.Click2Db.LifeProc.{
  do_proc, try_connect, ping, describe, move_file, finish_file, is_empty, process_file, next_file,
  round, rounds,
}
use flexetl.Click2Db.LifeProc.Inserted.SendTable.{failed_dirs, Same, Counted, send_table-Counted}

-- A file is removed, or goes to one of two directories.
abbrev pub Goes : Bytes × Bytes → Move → Type 0
Goes (send_failed_dir, load_failed_dir) m =
    (m.to_path ≡ []) ⊎ (m.to_path ≡ send_failed_dir) ⊎ (m.to_path ≡ load_failed_dir)

abbrev pub AllGo : Bytes × Bytes → State → Type 0
AllGo dirs s = (failed_dirs s ≡ dirs) × All (Goes dirs) s.moves

AllGo-if :
    (dirs : Bytes × Bytes) (b : Bool) (x y : State)
    → AllGo dirs x
    → AllGo dirs y
    → AllGo dirs (if b then x else y)
AllGo-if dirs true x y h k = h
AllGo-if dirs false x y h k = k

AllGo-Same : (dirs : Bytes × Bytes) (s s' : State) → Same s s' → AllGo dirs s → AllGo dirs s'
AllGo-Same dirs s s' (m, d) (e, go) = (d ∙ e, rw m go)

module _ (dirs : Bytes × Bytes) where
  moved-AllGo :
      (b : Bool) (m : Move) (s : State)
      → (failed_dirs s ≡ dirs → Goes dirs m)
      → AllGo dirs s
      → AllGo dirs (move_file b m s)
  unfolding move_file
  moved-AllGo b m s goes (e, go) = (e, (goes e, go))

  finish_file-AllGo :
      (moved : Bool) (count : ℕ) (name : Bytes) (t : ClickTable) (before s : State)
      (r : State × Sending)
      → AllGo dirs before
      → AllGo dirs s
      → Counted t s r
      → AllGo dirs (finish_file moved (count, name) before r)
  unfolding finish_file
  finish_file-AllGo moved count name t before s (s', sent) hb h (same, i) =
      moved-AllGo moved (removed name) s' (λ e. inl refl) (AllGo-Same dirs s s' same h)
  finish_file-AllGo moved count name t before s (s', crashed) hb h (same, i) = hb
  finish_file-AllGo moved count name t before s (s', failed) hb h (same, i) =
      let u = record s' { error_db = add_metric s'.error_db 1 } in
      let h' : AllGo dirs u = AllGo-Same dirs s s' same h in
      AllGo-if dirs (ltb (count + 1) 3) _ _ h' (
        moved-AllGo moved (record { to_path = s'.send_failed_dir; name = name }) u
          (λ e. rw (← e) (inr (inl refl))) h')

  try_connect-AllGo : (b : Bool) (s : State) → AllGo dirs s → AllGo dirs (try_connect b s)
  unfolding try_connect
  try_connect-AllGo b s h = AllGo-if dirs s.connected s _ h (AllGo-if dirs b _ _ h h)

  ping-AllGo : (b : Bool) (s : State) → AllGo dirs s → AllGo dirs (ping b s)
  unfolding ping
  ping-AllGo b s h = AllGo-if dirs _ _ s (AllGo-if dirs b _ _ h h) h

  describe-AllGo : (d : Option (Map Bytes)) (s : State) → AllGo dirs s → AllGo dirs (describe d s)
  unfolding describe
  describe-AllGo none s h = AllGo-if dirs _ _ s (AllGo-if dirs s.connected _ _ h h) h
  describe-AllGo (some types) s h = AllGo-if dirs _ _ s (AllGo-if dirs s.connected _ _ h h) h

module _ {Column : Type 0} (p : Platform) (client : Client Column) (dirs : Bytes × Bytes) where
  process_file-AllGo :
      (a : Answers) (e : Entry) (rest : List Entry) (s : State)
      → AllGo dirs s
      → AllGo dirs (process_file p client a e rest s)
  unfolding process_file
  process_file-AllGo a (count, name) rest s h =
      let s' = record s { empty_counter = 0; queue = rest; loads = name ∷ s.loads } in
      let t = (load a.content Table.empty).0 in
      elim (Result-cases (load a.content Table.empty).1) [
        | inl (x, e) ↦
            rw (e, process_file)
              (finish_file-AllGo dirs a.moved count name t s s' (send_table p client a t s') h h
                (send_table-Counted p client a t s'))
        | inr (inl (x, e)) ↦
            rw (e, process_file)
              (moved-AllGo dirs a.moved (record { to_path = s'.load_failed_dir; name = name })
                (record s' { error_fs = add_metric s'.error_fs 1 }) (λ e. rw (← e) (inr (inr refl)))
                h)
        | inr (inr (inl e)) ↦ rw (e, process_file) h
        | inr (inr (inr e)) ↦ rw (e, process_file) h
      ]

  next_file-AllGo : (a : Answers) (s : State) → AllGo dirs s → AllGo dirs (next_file p client a s)
  unfolding next_file
  next_file-AllGo a s h = elim (Option-cases (dequeue a.pick s.queue)) [
    | inl e ↦ rw (e, next_file) h
    | inr ((entry, rest), e) ↦ rw (e, next_file) (process_file-AllGo a entry rest s h)
  ]

  round-AllGo : (a : Answers) (s : State) → AllGo dirs s → AllGo dirs (round p client a s)
  unfolding round
  round-AllGo a s h =
      let s₀ = do_proc a.arrivals s in
      let s₁ = try_connect a.connects s₀ in
      let s₂ = describe a.description (ping a.pings s₁) in
      let h₀ : AllGo dirs s₀ = unfold do_proc in h in
      let h₁ = try_connect-AllGo dirs a.connects s₀ h₀ in
      let h₂ =
        describe-AllGo dirs a.description (ping a.pings s₁) (ping-AllGo dirs a.pings s₁ h₁) in
      AllGo-if dirs s.crashed s _ h (
        AllGo-if dirs (not s₁.connected) s₁ _ h₁
          (AllGo-if dirs (is_empty s₂.tbl_type) _ _ h₂ (next_file-AllGo a s₂ h₂)))

  -- From a state in which nothing else was moved, a run moves files only to the two directories, or
  -- removes them.
  pub rounds-AllGo :
      (answers : List Answers) (s : State) → AllGo dirs s → AllGo dirs (rounds p client answers s)
  unfolding rounds
  rounds-AllGo [] s h = h
  rounds-AllGo (a ∷ answers) s h = rounds-AllGo answers (round p client a s) (round-AllGo a s h)
