-- ===== src/Click2Db/LifeProc.antt =====
-- src/flexetl/click2db.cpp: `lifeProc`, by rounds of its loop, and `doProc` of the other threads.
pub mod Attempts
pub mod Inserted
pub mod Places
use flexetl.Prelude.{
  ℕ, zero, suc, ◌+◌, ◌/◌, Bool, true, false, not, ◌&&◌, ◌||◌, List, [], ◌∷◌, ◌++◌, map, Option,
  none, some, ◌==◌, ltb, if◌then◌else◌,
}
use flexetl.Prelude.Words.{Bytes}
use flexetl.StdMap.{Map}
use flexetl.Queue.{remove_at, dequeue}
use flexetl.Result.{Result, ok, throws, fault, out_of_fuel}
use flexetl.ClickTbl.Getters.{Platform}
use flexetl.Click2Db.Convert.{Client}
use flexetl.ClickTbl.Value.{Values}
use flexetl.ClickTbl.Table
use flexetl.ClickTbl.Load.{load}
use flexetl.Json2Click.State.{add_metric}
use flexetl.Click2Db.State.{
  State, Answers, Entry, Move, removed, Sending, sent, failed, crashed, send_table,
}

-- `doProc` of files that could be copied.
unfoldable pub do_proc : List Bytes → State → State
do_proc names s = record s { queue = s.queue ++ map (λ (name : Bytes). (0, name)) names }

-- `m_pClickDB.reset(); m_tblType.clear()`
abbrev disconnect : State → State
disconnect s = record s { connected = false; tbl_type = [] }

abbrev pub is_empty {ℓ} : {A : Type ℓ} → List A → Bool
is_empty [] = true
is_empty (x ∷ xs) = false

-- `m_pClickDB || tryConnect()`
unfoldable pub try_connect : Bool → State → State
try_connect connects s =
    if s.connected
    then s
    else if connects
    then record s { connected = true }
    else record (disconnect s) { empty_counter = 0 }

-- After more than a minute of empty rounds the connection is tested.
unfoldable pub ping : Bool → State → State
ping pings s =
    if ltb 60 (s.empty_counter / 2)
    then (let s' = record s { empty_counter = 0 } in if pings then s' else disconnect s')
    else s

-- `descibeTable()` and what follows it. Without a connection it throws.
unfoldable pub describe : Option (Map Bytes) → State → State
describe description s =
    if s.update_tbl_desc || is_empty s.tbl_type
    then (let lost = record (disconnect s) {
      empty_counter = 0;
      error_db = add_metric s.error_db 1;
      update_tbl_desc = true;
    } in
        if s.connected
        then (elim description [
          | none ↦ lost
          | some types ↦ record s {
            empty_counter = 0;
            tbl_type = types;
            update_tbl_desc = is_empty types;
          }
        ])
        else lost)
    else s

-- `moveFile`, and the metric if it fails. With an empty directory it removes the file.
unfoldable pub move_file : Bool → Move → State → State
move_file moved m s = record s {
  moves = m ∷ s.moves;
  error_fs = if moved then s.error_fs else add_metric s.error_fs 1;
}

-- A file that was sent is removed; one that was not is queued again, and given up at the third
-- failure. On undefined behaviour the file stays where it was before.
unfoldable pub finish_file : Bool → Entry → State → State × Sending → State
finish_file moved (count, name) before (s, sent) = move_file moved (removed name) s
finish_file moved (count, name) before (s, crashed) = record before { crashed = true }
finish_file moved (count, name) before (s, failed) =
    let s' = record s { error_db = add_metric s.error_db 1 } in
    if ltb (count + 1) 3
    then record s' { queue = s'.queue ++ (count + 1, name) ∷ []; update_tbl_desc = true }
    else move_file moved (record { to_path = s'.send_failed_dir; name = name }) s'

module _ {Column : Type 0} (p : Platform) (client : Client Column) where
  -- A file from the queue; `s` is the state without it. On undefined behaviour it stays there.
  unfoldable pub process_file : Answers → Entry → List Entry → State → State
  process_file a (count, name) rest s =
      let s' = record s { empty_counter = 0; queue = rest; loads = name ∷ s.loads } in
      let (table, result) = load a.content Table.empty in
      elim result [
        | ok _ ↦ finish_file a.moved (count, name) s (send_table p client a table s')
        | throws e ↦
            move_file a.moved (record { to_path = s'.load_failed_dir; name = name })
              (record s' { error_fs = add_metric s'.error_fs 1 })
        | fault ↦ record s { crashed = true }
        | out_of_fuel ↦ record s { crashed = true }
      ]

  -- What the queue gives within half a second.
  unfoldable pub next_file : Answers → State → State
  next_file a s = elim (dequeue a.pick s.queue) [
    | none ↦ record s { empty_counter = s.empty_counter + 1 }
    | some (entry, rest) ↦ process_file a entry rest s
  ]

  -- A round of the loop.
  unfoldable pub round : Answers → State → State
  round a s =
      let s₀ = do_proc a.arrivals s in
      let s₁ = try_connect a.connects s₀ in
      let s₂ = describe a.description (ping a.pings s₁) in
      if s.crashed
      then s
      else if not s₁.connected
      then s₁
      else if is_empty s₂.tbl_type
      then record s₂ { update_tbl_desc = true }
      else next_file a s₂

  unfoldable pub rounds : List Answers → State → State
  rounds [] s = s
  rounds (a ∷ answers) s = rounds answers (round a s)
