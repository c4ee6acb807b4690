-- ===== src/Click2Db/Init/Run.antt =====
-- The sender of src/flexetl/click2db.cpp from its `init` on.
use flexetl.Prelude.{
  ◌+◌, ◌*◌, ◌≤◌, ◌≡◌, refl, Bool, true, false, List, [], ◌∷◌, ◌++◌, some, arith, All,
}
use flexetl.Prelude.Words.{Bytes}
use flexetl.Queue.{times}
use flexetl.ClickTbl.Getters.{Platform}
use flexetl.Nodes.Params.{
  Params, Disk, good, or_else, CanCreate, IsEmptyOrCreated, create_needed_lem, create_missing_lem,
  connect_all_lem,
}
use flexetl.Click2Db.Convert.{Client}
use flexetl.Click2Db.State.{Answers, Entry}
use flexetl.Click2Db.LifeProc.{rounds}
use flexetl.Click2Db.LifeProc.Places.{Goes, rounds-AllGo}
use flexetl.Click2Db.LifeProc.Attempts.{all_arrived, rounds-IsFresh}
use flexetl.Click2Db.LifeProc.Attempts.Count.{
  IsFresh, IsFresh-append, times_queued, times_queued-append, left, left-append, handled, attempts,
}
use flexetl.Click2Db.Init.{
  Setup, p_host, p_user, p_pass, p_table, p_tosend, p_failed, p_badfiles, p_metrics, metric_names,
  enqueue_files, create_all, members, setup, init, start,
}

-- The files in a directory, with its name before theirs.
abbrev pub files_in : Bytes → List (Bytes × Bool) → List Bytes
files_in dir [] = []
files_in dir ((name, true) ∷ entries) = files_in dir entries
files_in dir ((name, false) ∷ entries) = (dir ++ b'/' ∷ name) ∷ files_in dir entries

-- What is enqueued is new, and has three attempts left.
enqueue_files_lem :
    (dir : Bytes) (entries : List (Bytes × Bool)) (queue : List Entry)
    → IsFresh queue
    → let queue' = enqueue_files dir entries queue in
      IsFresh queue'
      × ((k : Bytes)
          → times_queued k queue' ≡ times_queued k queue + times k (files_in dir entries))
      × ((k : Bytes) → left k queue' ≡ left k queue + 3 * times k (files_in dir entries))
unfolding enqueue_files
enqueue_files_lem dir [] queue h = (h, λ k. omega arith, λ k. omega arith)
enqueue_files_lem dir ((name, true) ∷ entries) queue h = enqueue_files_lem dir entries queue h
enqueue_files_lem dir ((name, false) ∷ entries) queue h =
    let new = (0, dir ++ b'/' ∷ name) ∷ [] in
    let (fresh, queued, lefts) =
      enqueue_files_lem dir entries (queue ++ new) (IsFresh-append queue new h (omega arith, tt)) in
    (
      fresh,
      λ k. omega (arith, queued k, times_queued-append k queue new),
      λ k. omega (arith, lefts k, left-append k queue new),
    )

-- The parameters "failed" and "badfiles", empty where they are not there.
abbrev pub failed_dirs_of : Params → Bytes × Bytes
failed_dirs_of params =
    (or_else [] (params.get_str p_failed), or_else [] (params.get_str p_badfiles))

setup_lem :
    (params : Params) (disk : Disk) (connects : Bytes → Bytes → Bool)
    (host user password table_name to_send : Bytes)
    → All
        (λ (name : Bytes). connects name (or_else [] (params.get_str p_metrics)) ≡ true)
        metric_names
    → CanCreate disk to_send
    → All
        (IsEmptyOrCreated disk)
        (or_else [] (params.get_str p_failed) ∷ or_else [] (params.get_str p_badfiles) ∷ [])
    → (u : Setup) × (setup params disk connects host user password table_name to_send ≡ good u)
      × ((u.send_failed_dir, u.load_failed_dir) ≡ failed_dirs_of params)
unfolding setup create_all
setup_lem params disk connects host user password table_name to_send taken sends can =
    let failed = or_else [] (params.get_str p_failed) in
    let bad_files = or_else [] (params.get_str p_badfiles) in
    let (connected, c) =
      connect_all_lem connects metric_names (or_else [] (params.get_str p_metrics)) taken in
    let (first, n) = create_needed_lem disk [] to_send sends in
    let (created, m) = create_missing_lem disk first (failed ∷ bad_files ∷ []) can in
    (
      members params host user password table_name to_send connected created,
      rw (setup, c, create_all, n, m) refl,
      refl,
    )

-- With its five parameters, when the metrics take its counters, the directory of the files to send is
-- there or can be created and is listed without an exception, and each of the two for the files that
-- failed has no name, is there or can be created, `init` succeeds. From the state that it leaves, over
-- any run of the sender: no file that waits failed three times; the files that were moved or wait are,
-- for each name, as many as were in the directory at the start and arrived; and each was loaded at most
-- three times for each of these; and each was moved by `moveFile` with an empty directory, to be removed,
-- or to one of the two directories.
pub init-rounds :
    {Column : Type 0} (p : Platform) (client : Client Column) (params : Params) (disk : Disk)
    (connects : Bytes → Bytes → Bool) (answers : List Answers)
    (host user password table_name to_send : Bytes)
    → params.get_str p_host ≡ some host
    → params.get_str p_user ≡ some user
    → params.get_str p_pass ≡ some password
    → params.get_str p_table ≡ some table_name
    → params.get_str p_tosend ≡ some to_send
    → All
        (λ (name : Bytes). connects name (or_else [] (params.get_str p_metrics)) ≡ true)
        metric_names
    → CanCreate disk to_send
    → All
        (IsEmptyOrCreated disk)
        (or_else [] (params.get_str p_failed) ∷ or_else [] (params.get_str p_badfiles) ∷ [])
    → (disk.lists to_send).throws ≡ false
    → (u : Setup) × (queue : List Entry) × (init params disk connects [] ≡ good (u, queue))
      × (let s' = rounds p client answers (start u queue) in
          let all = λ (k : Bytes).
            times k (files_in to_send (disk.lists to_send).found)
            + times k (all_arrived p client answers (start u queue)) in
          IsFresh s'.queue
          × ((k : Bytes) → handled k s' ≡ all k)
          × ((k : Bytes) → attempts k s' ≤ 3 * all k)
          × All (Goes (failed_dirs_of params)) s'.moves)
unfolding init start
init-rounds p client params disk connects answers host user password table_name to_send h1 h2 h3 h4
      h5 taken sends can listed =
    let found = (disk.lists to_send).found in
    let queue = enqueue_files to_send found [] in
    let (u, e, dirs) =
      setup_lem params disk connects host user password table_name to_send taken sends can in
    let (fresh, queued, lefts) = enqueue_files_lem to_send found [] tt in
    let (fresh', all_handled, loaded) = rounds-IsFresh p client answers (start u queue) fresh in
    (
      u,
      queue,
      rw (init, h1, h2, h3, h4, h5, e, listed) refl,
      (
        fresh',
        λ k. omega (arith, all_handled k, queued k),
        λ k. omega (arith, loaded k, lefts k),
        (rounds-AllGo p client (failed_dirs_of params) answers (start u queue) (dirs, tt)).1,
      ),
    )
