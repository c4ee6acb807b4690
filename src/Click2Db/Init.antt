-- ===== src/Click2Db/Init.antt =====
-- src/flexetl/click2db.cpp: `init`.
pub mod Run
mod Tests
use flexetl.Prelude.{Bool, true, false, List, [], ◌∷◌, ◌++◌, Option, none, some, if◌then◌else◌}
use flexetl.Prelude.Words.{Bytes}
use flexetl.Nodes.Params.{
  Params, Disk, Ending, good, required, unless_thrown, ◌>>=◌, all_found, or_else, create_needed,
  create_missing, connect_all,
}
use flexetl.Click2Db.State.{State, Entry}

-- The names of the parameters, and of the metrics.
abbrev pub p_host : Bytes
p_host = b'h' ∷ b'o' ∷ b's' ∷ b't' ∷ []

abbrev pub p_user : Bytes
p_user = b'u' ∷ b's' ∷ b'e' ∷ b'r' ∷ []

abbrev pub p_pass : Bytes
p_pass = b'p' ∷ b'a' ∷ b's' ∷ b's' ∷ []

abbrev pub p_table : Bytes
p_table = b't' ∷ b'a' ∷ b'b' ∷ b'l' ∷ b'e' ∷ []

abbrev pub p_tosend : Bytes
p_tosend = b't' ∷ b'o' ∷ b's' ∷ b'e' ∷ b'n' ∷ b'd' ∷ []

abbrev pub p_failed : Bytes
p_failed = b'f' ∷ b'a' ∷ b'i' ∷ b'l' ∷ b'e' ∷ b'd' ∷ []

abbrev pub p_badfiles : Bytes
p_badfiles = b'b' ∷ b'a' ∷ b'd' ∷ b'f' ∷ b'i' ∷ b'l' ∷ b'e' ∷ b's' ∷ []

abbrev pub p_metrics : Bytes
p_metrics = b'm' ∷ b'e' ∷ b't' ∷ b'r' ∷ b'i' ∷ b'c' ∷ b's' ∷ []

abbrev pub metric_names : List Bytes
metric_names =
    (b'E' ∷ b'r' ∷ b'r' ∷ b'o' ∷ b'r' ∷ b'D' ∷ b'B' ∷ [])
    ∷ (b'E' ∷ b'r' ∷ b'r' ∷ b'o' ∷ b'r' ∷ b'F' ∷ b'S' ∷ [])
    ∷ (b'E' ∷ b'r' ∷ b'r' ∷ b'o' ∷ b'r' ∷ b'T' ∷ b'y' ∷ b'p' ∷ b'e' ∷ b's' ∷ [])
    ∷ (b'I' ∷ b'n' ∷ b's' ∷ b'e' ∷ b'r' ∷ b't' ∷ b'e' ∷ b'd' ∷ b'R' ∷ b'o' ∷ b'w' ∷ b's' ∷ [])
    ∷ []

-- What `init` sets and asks for: the members, the counters that are connected and the directories that
-- are created.
pub record Setup : Type 0 where
  pub host : Bytes
  pub user : Bytes
  pub password : Bytes
  pub table_name : Bytes
  pub to_send : Bytes
  pub send_failed_dir : Bytes
  pub load_failed_dir : Bytes
  pub connected : List (Bytes × Bytes)
  pub created : List Bytes

-- The loop over the directory of files to send: each file is enqueued with no attempt made. An entry
-- is its name, and whether it is a directory.
unfoldable pub enqueue_files : Bytes → List (Bytes × Bool) → List Entry → List Entry
enqueue_files dir [] queue = queue
enqueue_files dir ((name, true) ∷ entries) queue = enqueue_files dir entries queue
enqueue_files dir ((name, false) ∷ entries) queue =
    enqueue_files dir entries (queue ++ (0, dir ++ b'/' ∷ name) ∷ [])

-- The creation of the directories: that of the files to send also if its name is empty.
unfoldable pub create_all : Disk → Bytes → List Bytes → Option (List Bytes)
create_all disk to_send dirs = elim (create_needed disk [] to_send) [
  | none ↦ none
  | some created ↦ create_missing disk created dirs
]

-- The members that `init` sets, with the counters and the directories.
abbrev pub members :
    Params → Bytes → Bytes → Bytes → Bytes → Bytes → List (Bytes × Bytes) → List Bytes → Setup
members params host user password table_name to_send connected created = record {
  host = host;
  user = user;
  password = password;
  table_name = table_name;
  to_send = to_send;
  send_failed_dir = or_else [] (params.get_str p_failed);
  load_failed_dir = or_else [] (params.get_str p_badfiles);
  connected = connected;
  created = created;
}

-- `init`, behind the five parameters that must be there: what is set, unless there is an exception.
unfoldable pub setup :
    Params → Disk → (Bytes → Bytes → Bool) → Bytes → Bytes → Bytes → Bytes → Bytes → Ending Setup
setup params disk connects host user password table_name to_send = do
  let failed = or_else [] (params.get_str p_failed)
  let bad_files = or_else [] (params.get_str p_badfiles)
  connected ←
      unless_thrown (connect_all connects metric_names (or_else [] (params.get_str p_metrics)))
  created ← unless_thrown (create_all disk to_send (failed ∷ bad_files ∷ []))
  good (members params host user password table_name to_send connected created)

-- `init`: what was set, and the queue. `connects` says which counters the metrics take. What an
-- exception leaves in the queue is left out: nothing runs behind it.
unfoldable pub init :
    Params → Disk → (Bytes → Bytes → Bool) → List Entry → Ending (Setup × List Entry)
init params disk connects queue = do
  host ← required (params.get_str p_host)
  user ← required (params.get_str p_user)
  password ← required (params.get_str p_pass)
  table_name ← required (params.get_str p_table)
  to_send ← required (params.get_str p_tosend)
  u ← setup params disk connects host user password table_name to_send
  entries ← unless_thrown (all_found (disk.lists to_send))
  good (u, enqueue_files to_send entries queue)

-- A `Click2DB` that `init` left like this, at the start of `lifeProc`.
unfoldable pub start : Setup → List Entry → State
start u queue = record {
  send_failed_dir = u.send_failed_dir;
  load_failed_dir = u.load_failed_dir;
  connected = false;
  tbl_type = [];
  update_tbl_desc = true;
  empty_counter = 0;
  queue = queue;
  error_db = 0;
  error_fs = 0;
  error_types = 0;
  inserted_rows = 0;
  loads = [];
  moves = [];
  crashed = false;
}
