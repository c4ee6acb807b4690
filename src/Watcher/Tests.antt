-- ===== src/Watcher/Tests.antt =====
-- src/flexetl/watcher.cpp on a few events.
use flexetl.Prelude.{◌≡◌, refl, true, List, [], ◌∷◌, ◌++◌, arith}
use flexetl.Prelude.Words.{Bytes}
use flexetl.Result.{ok}
use flexetl.StdMap.Key.{compare_bytes}
use flexetl.ClickTbl.Load.{c_string}
use flexetl.Paths.{join, extension, from_last_dot}
use flexetl.Watcher.{Watches, find_watch, is_watched, handle, life_proc}
use flexetl.Watcher.Buffer.{Event, handle_all, all_of, answers_of, life_proc-handle_all}

-- A callback that notes the files.
abbrev note : Bytes → List Bytes → List Bytes
note name names = names ++ name ∷ []

-- The directory "d" is watched for ".a".
abbrev watches : Watches (List Bytes)
watches = (1, (b'd' ∷ [], b'.' ∷ b'a' ∷ [], note)) ∷ []

-- "x.a" is closed, "y" too, and an event without a name.
abbrev closed_x : Event
closed_x = record { wd = 1; mask = 8; cookie = 0; field = b'x' ∷ b'.' ∷ b'a' ∷ 0 ∷ [] }

abbrev closed_y : Event
closed_y = record closed_x { field = b'y' ∷ 0 ∷ 0 ∷ 0 ∷ [] }

abbrev no_name : Event
no_name = record closed_x { field = [] }

abbrev batches : List (List Event)
batches = (closed_x ∷ no_name ∷ []) ∷ (closed_y ∷ []) ∷ []

-- One call, with "d/x.a".
calls : handle_all watches (all_of batches) [] ≡ (b'd' ∷ b'/' ∷ b'x' ∷ b'.' ∷ b'a' ∷ []) ∷ []
unfolding handle_all handle find_watch is_watched c_string join extension from_last_dot
    compare_bytes
calls = refl

life_proc-handle_all_example :
    life_proc watches (answers_of batches) [] ≡ ok (handle_all watches (all_of batches) [], true)
life_proc-handle_all_example = life_proc-handle_all watches batches [] (
  (
    (omega arith, omega arith, omega arith, omega arith, refl),
    ((omega arith, omega arith, omega arith, omega arith, refl), tt),
  ),
  (((omega arith, omega arith, omega arith, omega arith, refl), tt), tt),
)
