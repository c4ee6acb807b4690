-- ===== src/Click2Db/Init/Tests.antt =====
-- src/flexetl/click2db.cpp: the sender from its `init` on, with one file in its directory.
use flexetl.Prelude.{
  ◌+◌, ◌*◌, ◌≤◌, ◌≡◌, refl, Bool, true, false, List, [], ◌∷◌, none, some, inr, All,
}
use flexetl.Prelude.Words.{Bytes}
use flexetl.Queue.{times}
use flexetl.ClickTbl.Getters.Toy.{platform}
use flexetl.Nodes.Params.{Params, Disk, good}
use flexetl.Click2Db.Toy.{client}
use flexetl.Click2Db.State.{Answers, Entry}
use flexetl.Click2Db.LifeProc.{rounds}
use flexetl.Click2Db.LifeProc.Places.{Goes}
use flexetl.Click2Db.LifeProc.Attempts.{all_arrived}
use flexetl.Click2Db.LifeProc.Attempts.Count.{IsFresh, handled, attempts}
use flexetl.Click2Db.Init.{Setup, init, start}
use flexetl.Click2Db.Init.Run.{files_in, failed_dirs_of, init-rounds}

-- Every parameter is "d".
abbrev params : Params
params = record { get_str = λ name. some (b'd' ∷ []); get_int = λ name. none }

-- No directory is there, and each can be created.
abbrev disk : Disk
disk = record {
  exists = λ created dir. some false;
  creates = λ created dir. true;
  lists = λ dir. record { found = (b'x' ∷ [], false) ∷ (b'y' ∷ [], true) ∷ []; throws = false };
}

abbrev connects : Bytes → Bytes → Bool
connects name root = true

-- The file is given, and cannot be opened.
abbrev unreadable : Answers
unreadable = record {
  arrivals = [];
  connects = true;
  pings = true;
  description = some ((97 ∷ [], []) ∷ []);
  pick = some 0;
  content = none;
  description_again = none;
  inserts = true;
  moved = true;
}

init-rounds_example :
    (u : Setup) × (queue : List Entry) × (init params disk connects [] ≡ good (u, queue))
    × (let s' = rounds platform client (unreadable ∷ []) (start u queue) in
        let all = λ (k : Bytes).
          times k (files_in (b'd' ∷ []) (disk.lists (b'd' ∷ [])).found)
          + times k (all_arrived platform client (unreadable ∷ []) (start u queue)) in
        IsFresh s'.queue
        × ((k : Bytes) → handled k s' ≡ all k)
        × ((k : Bytes) → attempts k s' ≤ 3 * all k)
        × All (Goes (failed_dirs_of params)) s'.moves)
init-rounds_example =
    init-rounds platform client params disk connects (unreadable ∷ []) (b'd' ∷ []) (b'd' ∷ [])
      (b'd' ∷ []) (b'd' ∷ []) (b'd' ∷ []) refl refl refl refl refl
      (refl, (refl, (refl, (refl, tt)))) (λ created. inr (refl, refl))
      (inr (λ created. inr (refl, refl)), (inr (λ created. inr (refl, refl)), tt)) refl
