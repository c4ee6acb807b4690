-- ===== src/Click2Db/LifeProc/Attempts.antt =====
-- What becomes of the files in the queue of `Click2DB`.
pub mod Count
pub mod Steps
use flexetl.Prelude.{
  ℕ, zero, suc, ◌+◌, ◌-◌, ◌*◌, ◌/◌, ◌≤◌, ◌<◌, ◌≡◌, ◌⊎◌, refl, ap, sym, ◌∙◌, Bool, true, false, not,
  ◌&&◌, ◌||◌, List, [], ◌∷◌, ◌++◌, map, Option, none, some, ◌==◌, ltb, if◌then◌else◌, arith, inl,
  inr, Bool-cases, Option-cases, All, append-nil,
}
use flexetl.Prelude.Words.{Bytes}
use flexetl.StdMap.{Map, same_key}
use flexetl.Queue.{dequeue, one_if, times, times-append}
use flexetl.Json2Click.State.{add_metric}
use flexetl.Result.{Error, Result, ok, throws, fault, out_of_fuel}
use flexetl.ClickTbl.Getters.{Platform}
use flexetl.Click2Db.Convert.{Client}
use flexetl.Click2Db.Convert.Size.{Result-cases}
use flexetl.ClickTbl.Value.{Values}
use flexetl.ClickTbl.Table
use flexetl.ClickTbl.Table.{ClickTable}
use flexetl.ClickTbl.Load.{load}
use flexetl.Click2Db.Block.{Block, Filling, fill_table}
use flexetl.Click2Db.State.{
  State, Answers, Entry, Move, removed, Sending, sent, failed, crashed, same_types, insert_block,
  insert_filled, send_table,
}
use flexetl.Click2Db.LifeProc.{
  do_proc, try_connect, ping, describe, move_file, finish_file, is_empty, process_file, next_file,
  round, rounds,
}
use flexetl.Click2Db.LifeProc.Attempts.Count.{
  times_queued, times_moved, left, times_queued-append, left-append, times_queued-map, left-map,
  IsFresh, IsFresh-append, IsFresh-middle, IsFresh-map, handled, attempts, Removed, dequeue-Removed,
}
use flexetl.Click2Db.LifeProc.Attempts.Steps.{
  Alike, Alike-if, Alike-if_fst, Alike-trans, same, try_connect-Alike, ping-Alike, describe-Alike,
  insert_block-Alike, insert_filled-Alike, send_table-Alike,
}

-- What a step may do to the files: none is lost or doubled, and no attempt is added.
abbrev Keeps : State → State → Type 0
Keeps s s' =
    IsFresh s'.queue
    × ((k : Bytes) → handled k s' ≡ handled k s)
    × ((k : Bytes) → attempts k s' ≤ attempts k s)

spend : (b : Bool) (c t l : ℕ) → c < 3 → one_if b + t + l ≤ t + (one_if b * (3 - c) + l)
spend true c t l h = omega arith
spend false c t l h = omega arith

spend_one :
    (b : Bool) (c t l : ℕ)
    → c + 1 < 3
    → one_if b + t + (l + (one_if b * (3 - (c + 1)) + 0)) ≤ t + (one_if b * (3 - c) + l)
spend_one true c t l h = omega arith
spend_one false c t l h = omega arith

-- A file that was taken from the queue and loaded, and is then moved or queued again.
module _ (s u : State) (count : ℕ) (name : Bytes) (rest : List Entry)
    (taken : Removed (count, name) rest s.queue)
    (alike : (u.queue ≡ rest) × (u.loads ≡ name ∷ s.loads) × (u.moves ≡ s.moves)) where
  moved-Keeps : (b : Bool) (m : Move) → m.name ≡ name → Keeps s (move_file b m u)
  unfolding move_file
  moved-Keeps b m e =
      let (low, fresh, queued, lefts) = taken in
      let (queue_eq, loads_eq, moves_eq) = alike in
      (
        rw queue_eq fresh,
        λ k. rw (queue_eq, moves_eq, e) (omega (arith, queued k)),
        λ k.
            rw (queue_eq, loads_eq, lefts k)
              (spend (same_key k name) count (times k s.loads) (left k rest) low),
      )

  requeued-Keeps :
      (b : Bool) (n : ℕ)
      → count + 1 < 3
      → Keeps s (record u {
        error_db = n;
        queue = u.queue ++ (count + 1, name) ∷ [];
        update_tbl_desc = b;
      })
  requeued-Keeps b n next =
      let (low, fresh, queued, lefts) = taken in
      let (queue_eq, loads_eq, moves_eq) = alike in
      (
        rw queue_eq (IsFresh-append rest ((count + 1, name) ∷ []) fresh (next, tt)),
        λ k.
            rw (queue_eq, moves_eq)
              (omega (arith, queued k, times_queued-append k rest ((count + 1, name) ∷ []))),
        λ k.
            rw (queue_eq, loads_eq, lefts k, left-append k rest ((count + 1, name) ∷ []))
              (spend_one (same_key k name) count (times k s.loads) (left k rest) next),
      )

finish_file-Keeps :
    (s : State) (count : ℕ) (name : Bytes) (rest : List Entry)
    → IsFresh s.queue
    → Removed (count, name) rest s.queue
    → (b : Bool) (r : State × Sending)
    → (r.0.queue ≡ rest) × (r.0.loads ≡ name ∷ s.loads) × (r.0.moves ≡ s.moves)
    → Keeps s (finish_file b (count, name) s r)
unfolding finish_file
finish_file-Keeps s count name rest fresh taken b (u, sent) alike =
    moved-Keeps s u count name rest taken alike b (removed name) refl
finish_file-Keeps s count name rest fresh taken b (u, crashed) alike =
    (fresh, λ k. refl, λ k. omega arith)
finish_file-Keeps s count name rest fresh taken b (u, failed) alike =
    elim (Bool-cases (ltb (count + 1) 3)) [
      | inl e ↦ rw e (
          requeued-Keeps s u count name rest taken alike true (add_metric u.error_db 1)
            (ground arith))
      | inr e ↦ rw e (
          moved-Keeps s (record u { error_db = add_metric u.error_db 1 }) count name rest taken
            alike b (record { to_path = u.send_failed_dir; name = name }) refl)
    ]

-- The files after a round in which these arrived.
abbrev Adds : List Bytes → State → State → Type 0
Adds names s s' =
    IsFresh s'.queue
    × ((k : Bytes) → handled k s' ≡ handled k s + times k names)
    × ((k : Bytes) → attempts k s' ≤ attempts k s + 3 * times k names)

do_proc-Adds : (names : List Bytes) (s : State) → IsFresh s.queue → Adds names s (do_proc names s)
unfolding do_proc
do_proc-Adds names s fresh =
    let q = map (λ (name : Bytes). (0, name)) names in
    (
      IsFresh-append s.queue q fresh (IsFresh-map names),
      λ k. omega (arith, times_queued-append k s.queue q, times_queued-map k names),
      λ k. omega (arith, left-append k s.queue q, left-map k names),
    )

Adds-Alike : (names : List Bytes) (s t u : State) → Adds names s t → Alike t u → Adds names s u
Adds-Alike names s t u (fresh, h, a) (q, l, m) =
    (rw q fresh, λ k. rw (q, m) (h k), λ k. rw (q, l) (a k))

Adds-Keeps : (names : List Bytes) (s t u : State) → Adds names s t → Keeps t u → Adds names s u
Adds-Keeps names s t u (fresh, h, a) (fresh', h', a') =
    (fresh', λ k. h' k ∙ h k, λ k. omega (arith, a k, a' k))

Adds-if :
    (names : List Bytes) (s : State) (b : Bool) (x y : State)
    → Adds names s x
    → Adds names s y
    → Adds names s (if b then x else y)
Adds-if names s true x y h k = h
Adds-if names s false x y h k = k

Adds-unless :
    (b : Bool) (names : List Bytes) (s x : State)
    → IsFresh s.queue
    → Adds names s x
    → Adds (if b then [] else names) s (if b then s else x)
Adds-unless true names s x fresh h = (fresh, λ k. omega arith, λ k. omega arith)
Adds-unless false names s x fresh h = h

module _ {Column : Type 0} (p : Platform) (client : Client Column) where
  process_file-Keeps :
      (a : Answers) (e : Entry) (rest : List Entry) (s : State)
      → IsFresh s.queue
      → Removed e rest s.queue
      → Keeps s (process_file p client a e rest s)
  unfolding process_file
  process_file-Keeps a (count, name) rest s fresh taken =
      let s' = record s { empty_counter = 0; queue = rest; loads = name ∷ s.loads } in
      let table = (load a.content Table.empty).0 in
      let (q, l, m) = send_table-Alike p client a table s' in
      elim (Result-cases (load a.content Table.empty).1) [
        | inl (x, e) ↦
            rw (e, process_file)
              (finish_file-Keeps s count name rest fresh taken a.moved
                (send_table p client a table s') (q, l, m))
        | inr (inl (x, e)) ↦
            rw (e, process_file)
              (moved-Keeps s (record s' { error_fs = add_metric s'.error_fs 1 }) count name rest
                taken (refl, refl, refl) a.moved
                (record { to_path = s'.load_failed_dir; name = name }) refl)
        | inr (inr (inl e)) ↦ rw (e, process_file) (fresh, λ k. refl, λ k. omega arith)
        | inr (inr (inr e)) ↦ rw (e, process_file) (fresh, λ k. refl, λ k. omega arith)
      ]

  -- The files that arrive in a round, and in a run; there are none after a crash.
  abbrev pub arrived : Answers → State → List Bytes
  arrived a s = if s.crashed then [] else a.arrivals

  unfoldable pub all_arrived : List Answers → State → List Bytes
  all_arrived [] s = []
  all_arrived (a ∷ answers) s = arrived a s ++ all_arrived answers (round p client a s)

  next_file-Keeps : (a : Answers) (s : State) → IsFresh s.queue → Keeps s (next_file p client a s)
  unfolding next_file
  next_file-Keeps a s fresh = elim (Option-cases (dequeue a.pick s.queue)) [
    | inl e ↦ rw (e, next_file) (fresh, λ k. refl, λ k. omega arith)
    | inr ((entry, rest), e) ↦
        rw (e, next_file)
          (process_file-Keeps a entry rest s fresh
            (dequeue-Removed a.pick s.queue entry rest fresh e))
  ]

  round-Adds :
      (a : Answers) (s : State) → IsFresh s.queue → Adds (arrived a s) s (round p client a s)
  unfolding round
  round-Adds a s fresh =
      let s₀ = do_proc a.arrivals s in
      let s₁ = try_connect a.connects s₀ in
      let sₚ = ping a.pings s₁ in
      let s₂ = describe a.description sₚ in
      let added₁ =
        Adds-Alike a.arrivals s s₀ s₁ (do_proc-Adds a.arrivals s fresh)
          (try_connect-Alike a.connects s₀) in
      let added₂ =
        Adds-Alike a.arrivals s s₁ s₂ added₁
          (Alike-trans s₁ sₚ s₂ (ping-Alike a.pings s₁) (describe-Alike a.description sₚ)) in
      let described =
        if is_empty s₂.tbl_type
        then record s₂ { update_tbl_desc = true }
        else next_file p client a s₂ in
      Adds-unless s.crashed a.arrivals s (if not s₁.connected then s₁ else described) fresh (
        Adds-if a.arrivals s (not s₁.connected) s₁ described added₁ (
          Adds-if a.arrivals s (is_empty s₂.tbl_type) (record s₂ { update_tbl_desc = true })
            (next_file p client a s₂) added₂
            (Adds-Keeps a.arrivals s s₂ (next_file p client a s₂) added₂
              (next_file-Keeps a s₂ added₂.0))))

  -- From a queue in which no file failed three times, over any run: no file in the queue ever failed
  -- three times; for each name, the files that were moved or are still in the queue are as many as
  -- before and those that arrived, so none is lost or doubled; and a file is loaded at most three
  -- times for each time that it arrived, and as often as it had attempts left at the start.
  pub rounds-IsFresh :
      (answers : List Answers) (s : State)
      → IsFresh s.queue
      → let s' = rounds p client answers s in
        IsFresh s'.queue
        × ((k : Bytes) → handled k s' ≡ handled k s + times k (all_arrived answers s))
        × ((k : Bytes) → attempts k s' ≤ attempts k s + 3 * times k (all_arrived answers s))
  unfolding rounds all_arrived
  rounds-IsFresh [] s fresh = (fresh, λ k. omega arith, λ k. omega arith)
  rounds-IsFresh (a ∷ answers) s fresh =
      let s' = round p client a s in
      let (fresh', h, t) = round-Adds a s fresh in
      let (fresh_end, h', t') = rounds-IsFresh answers s' fresh' in
      (
        fresh_end,
        λ k. omega (arith, h k, h' k, times-append k (arrived a s) (all_arrived answers s')),
        λ k. omega (arith, t k, t' k, times-append k (arrived a s) (all_arrived answers s')),
      )
