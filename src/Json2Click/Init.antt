-- ===== src/Json2Click/Init.antt =====
-- src/flexetl/json2click.cpp: `init` and `doProc`.
pub mod Arrivals
mod Tests
use flexetl.Prelude.{ℕ, Bool, true, false, List, [], ◌∷◌, ◌++◌, some, if◌then◌else◌}
use flexetl.Prelude.Int.{ℤ, pos}
use flexetl.Prelude.Words.{Bytes}
use flexetl.StdMap.{same_key}
use flexetl.Paths.{join, extension}
use flexetl.Nodes.Params.{
  Params, Disk, Ending, good, required, unless_thrown, ◌>>=◌, all_found, or_else, create_missing,
  connect_all,
}
use flexetl.Nodes.Start.{watch}
use flexetl.Watcher.{Watches}

-- The names of the parameters, and of the metrics.
abbrev pub p_watch : Bytes
p_watch = b'w' ∷ b'a' ∷ b't' ∷ b'c' ∷ b'h' ∷ []

abbrev pub p_output : Bytes
p_output = b'o' ∷ b'u' ∷ b't' ∷ b'p' ∷ b'u' ∷ b't' ∷ []

abbrev pub p_failed : Bytes
p_failed = b'f' ∷ b'a' ∷ b'i' ∷ b'l' ∷ b'e' ∷ b'd' ∷ []

abbrev pub p_succeeded : Bytes
p_succeeded = b's' ∷ b'u' ∷ b'c' ∷ b'c' ∷ b'e' ∷ b'e' ∷ b'd' ∷ b'e' ∷ b'd' ∷ []

abbrev pub p_metrics : Bytes
p_metrics = b'm' ∷ b'e' ∷ b't' ∷ b'r' ∷ b'i' ∷ b'c' ∷ b's' ∷ []

abbrev pub p_delay : Bytes
p_delay = b'd' ∷ b'e' ∷ b'l' ∷ b'a' ∷ b'y' ∷ []

abbrev pub p_block_size : Bytes
p_block_size = b'b' ∷ b'l' ∷ b'o' ∷ b'c' ∷ b'k' ∷ b'S' ∷ b'i' ∷ b'z' ∷ b'e' ∷ []

abbrev pub json : Bytes
json = b'.' ∷ b'j' ∷ b's' ∷ b'o' ∷ b'n' ∷ []

abbrev pub metric_names : List Bytes
metric_names =
    (b'E' ∷ b'r' ∷ b'r' ∷ b'o' ∷ b'r' ∷ b'F' ∷ b'S' ∷ [])
    ∷ (b'E' ∷ b'r' ∷ b'r' ∷ b'o' ∷ b'r' ∷ b'J' ∷ b'S' ∷ b'O' ∷ b'N' ∷ [])
    ∷ (b'R' ∷ b'o' ∷ b'w' ∷ b's' ∷ [])
    ∷ (b'D' ∷ b'a' ∷ b't' ∷ b'a' ∷ b'S' ∷ b'i' ∷ b'z' ∷ b'e' ∷ [])
    ∷ []

-- What `init` sets and asks for: the members, the counters that are connected, the directories that
-- are created, and the directory that is registered with the backuper.
pub record Setup : Type 0 where
  pub output_dir : Bytes
  pub failed_dir : Bytes
  pub backup_dir : Bytes
  pub delay : ℤ
  pub block_size : ℤ
  pub connected : List (Bytes × Bytes)
  pub created : List Bytes
  pub cleaned : Bytes × Bytes

-- `doProc`, on the queue.
unfoldable pub do_proc : Bytes → List Bytes → List Bytes × Bool
do_proc name queue = (queue ++ name ∷ [], true)

-- An entry of a directory: its name, and whether it is a directory.
abbrev pub Entry : Type 0
Entry = Bytes × Bool

-- The loop over the watched directory.
unfoldable pub enqueue_files : Bytes → List Entry → List Bytes → List Bytes
enqueue_files dir [] queue = queue
enqueue_files dir ((name, true) ∷ entries) queue = enqueue_files dir entries queue
enqueue_files dir ((name, false) ∷ entries) queue =
    enqueue_files dir entries
      (if same_key (extension name) json then queue ++ join dir name ∷ [] else queue)

-- The members that `init` sets, with the counters and the directories.
abbrev pub members : Params → Bytes → Bytes → List (Bytes × Bytes) → List Bytes → Setup
members params output_dir failed_dir connected created =
    let backup_dir = or_else [] (params.get_str p_succeeded) in
    record {
      output_dir = output_dir;
      failed_dir = failed_dir;
      backup_dir = backup_dir;
      delay = or_else (pos 0) (params.get_int p_delay);
      block_size = or_else (pos 0) (params.get_int p_block_size);
      connected = connected;
      created = created;
      cleaned = (backup_dir, json);
    }

-- `init`, behind the three parameters that must be there: what is set, unless there is an exception.
unfoldable pub setup : Params → Disk → (Bytes → Bytes → Bool) → Bytes → Bytes → Bytes → Ending Setup
setup params disk connects watch_dir output_dir failed_dir = do
  let backup_dir = or_else [] (params.get_str p_succeeded)
  connected ←
      unless_thrown (connect_all connects metric_names (or_else [] (params.get_str p_metrics)))
  created ←
      unless_thrown (create_missing disk [] (backup_dir ∷ failed_dir ∷ output_dir ∷ watch_dir ∷ []))
  good (members params output_dir failed_dir connected created)

-- `init`: what was set, the watches and the queue. `connects` says which counters the metrics take,
-- `wd` is the descriptor that `inotify_add_watch` gives. What an exception leaves in the queue is left
-- out: nothing runs behind it.
unfoldable pub init :
    Params
    → Disk
    → (Bytes → Bytes → Bool)
    → ℕ
    → Watches (List Bytes)
    → List Bytes
    → Ending (Setup × Watches (List Bytes) × List Bytes)
init params disk connects wd watches queue = do
  watch_dir ← required (params.get_str p_watch)
  output_dir ← required (params.get_str p_output)
  failed_dir ← required (params.get_str p_failed)
  u ← setup params disk connects watch_dir output_dir failed_dir
  entries ← unless_thrown (all_found (disk.lists watch_dir))
  good
      (u, (watch wd (some do_proc) watch_dir json watches).0, enqueue_files watch_dir entries queue)
