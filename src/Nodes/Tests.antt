-- ===== src/Nodes/Tests.antt =====
-- src/flexetl/nodes.cpp, pipeline.cpp and pipeset.cpp on small inputs.
use flexetl.Prelude.{
  ℕ, ◌≡◌, ◌⊎◌, refl, Bool, true, false, List, [], ◌∷◌, ◌++◌, none, some, map, inl, inr,
  if◌then◌else◌,
}
use flexetl.Nodes.Start
use flexetl.Nodes.Params.{Disk, Ending}
use flexetl.Nodes.Sub.{sub_count, get_elem?, sub_node}
use flexetl.Prelude.Int.{pos}
use flexetl.Result.{fault}
use flexetl.Nodes.Pipes.{Call}
use flexetl.Watcher.{is_watched}
use flexetl.Watcher.Buffer.{Event, handle_all}
use flexetl.Paths.{join}
use flexetl.ClickTbl.Load.{c_string}
use flexetl.Prelude.Words.{Bytes}
use flexetl.StdMap.{same_key, same_key_self}
use flexetl.StdMap.Key.{compare_bytes}
use flexetl.Nodes.Create.{
  Setting, leaf, branch, item, no_items, pipeset, json2click, click2db, name_of, make_handler,
  names, kinds,
}
use flexetl.Nodes.Pipes.{Call, pipe_line, pipe_set_loop, pipe_set, pipe_set-pipe_line}
use flexetl.Nodes.Tree.{Node, node, nil, cons, visit, start}
use flexetl.Nodes.MoveFile.{Files, move_file, move_file-kept}

-- Handlers that note their number; the second fails.
abbrev noting : ℕ → Bool → Call (List ℕ)
noting n res name log = (n ∷ log, res)

abbrev calls : List (Call (List ℕ))
calls = noting 1 true ∷ noting 2 false ∷ noting 3 true ∷ []

abbrev noting_removal : Bytes → List ℕ → List ℕ
noting_removal name log = 9 ∷ log

pipe_set-pipe_line_example :
    let (s', res) = pipe_line (map some calls) (120 ∷ []) [] in
    pipe_set noting_removal (map some calls) (120 ∷ []) [] ≡ (noting_removal (120 ∷ []) s', res)
pipe_set-pipe_line_example = pipe_set-pipe_line noting_removal calls (120 ∷ []) []

failed_set : pipe_set noting_removal (map some calls) (120 ∷ []) [] ≡ (9 ∷ 2 ∷ 1 ∷ [], false)
unfolding pipe_set pipe_set_loop
failed_set = refl

abbrev tree : Node ℕ
tree =
    node (some 1) (cons (node none (cons (node (some 2) nil) nil)) (cons (node (some 3) nil) nil))

abbrev noting_start : ℕ → List ℕ → List ℕ × Bool
noting_start n log = (log ++ n ∷ [], true)

started : start noting_start tree [] ≡ (1 ∷ 2 ∷ 3 ∷ [], true)
unfolding visit
started = refl

-- Files of which one has content.
abbrev one_file : Files
one_file path = if same_key path (120 ∷ []) then some (1 ∷ []) else none

abbrev removes : Bytes → Files → Files × Bool
removes name files = ((λ path. if same_key path name then none else files path), true)

abbrev renames : Bytes → Bytes → Files → Files × Bool
renames from to files = (
  (λ path.
      if same_key path to then files from else if same_key path from then none else files path),
  true,
)

abbrev keeps_time : Bytes → Files → Files × Bool
keeps_time path files = (files, true)

abbrev below : Bytes → Bytes → Bytes
below to_path name = to_path ++ 47 ∷ name

move_file-kept_example :
    let (files', good) =
      move_file removes renames keeps_time below (100 ∷ []) (120 ∷ []) one_file in
    ((files' (below (100 ∷ []) (120 ∷ [])) ≡ one_file (120 ∷ []))
      ⊎ ((good ≡ false) × (files' (120 ∷ []) ≡ one_file (120 ∷ []))))
move_file-kept_example =
    move_file-kept removes renames keeps_time below (λ from to files. rw (same_key_self to) refl)
      (λ path files. refl) (100 ∷ []) (120 ∷ []) one_file (λ e. cc)

-- A pipe set over the two handlers.
abbrev settings : Setting
settings = branch none (
    item
      (branch (some (name_of pipeset))
        (item (leaf (some (name_of json2click))) (item (leaf (some (name_of click2db))) no_items)))
      no_items)

three_kinds : kinds (names settings) ≡ some (pipeset ∷ json2click ∷ click2db ∷ [])
unfolding kinds names make_handler compare_bytes
three_kinds = refl

-- A directory with a file "a" and a directory "b", and a file "c" that comes later.
abbrev disk : Disk
disk = record {
  exists = λ created dir. some true;
  creates = λ created dir. true;
  lists = λ dir. record { found = (b'a' ∷ [], false) ∷ (b'b' ∷ [], true) ∷ []; throws = false };
}

abbrev closed_c : Event
closed_c = record { wd = 1; mask = 8; cookie = 0; field = b'c' ∷ 0 ∷ [] }

abbrev note_file : Call (List Bytes)
note_file name names = (names ++ name ∷ [], true)

closed_c-IsArrival : Start.IsArrival 1 closed_c
unfolding is_watched
closed_c-IsArrival = (refl, refl, refl)

start-deliver_example :
    let (watches', s', started) = Start.start (some (b'd' ∷ [])) disk 1 note_file [] [] in
    (started ≡ Ending.good tt)
    × (handle_all watches' (closed_c ∷ []) s'
        ≡ Start.deliver note_file
            ((b'a' ∷ []) ∷ map (λ (e : Event). join (b'd' ∷ []) (c_string e.field)) (closed_c ∷ []))
            [])
start-deliver_example =
    Start.start-deliver (b'd' ∷ []) disk 1 note_file [] (closed_c ∷ []) []
      (inr (λ created. inl refl)) refl (closed_c-IsArrival, tt)

-- The number of the subnodes passes the test of the index.
past_end : sub_node {H = ℕ} (cons (node none nil) nil) (pos 1) ≡ fault
unfolding sub_node sub_count get_elem?
past_end = refl
