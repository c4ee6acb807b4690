-- ===== src/Json2Click/Init/Arrivals.antt =====
-- Which files come into the queue of `Json2Click`.
use flexetl.Prelude.{
  ℕ, ◌≡◌, refl, ap, sym, ◌∙◌, Bool, true, false, List, [], ◌∷◌, ◌++◌, some, if◌then◌else◌, length,
  All, Bool-cases, inl, inr, map, append-nil, append_assoc,
}
use flexetl.Prelude.Words.{Bytes}
use flexetl.StdMap.{same_key}
use flexetl.ClickTbl.Load.{c_string}
use flexetl.Paths.{join, extension}
use flexetl.Nodes.Params.{
  Params, Disk, good, or_else, IsEmptyOrCreated, create_missing_lem, connect_all_lem,
}
use flexetl.Nodes.Start.{IsArrival, watch, find_watch-set_watch}
use flexetl.Watcher.{Watches, set_watch, add_watch, handle}
use flexetl.Watcher.Buffer.{Event, handle_all}
use flexetl.Json2Click.Init.{
  p_watch, p_output, p_failed, p_succeeded, p_metrics, metric_names, json, Setup, Entry, do_proc,
  enqueue_files, members, setup, init,
}

-- The files with the extension ".json" among some names, below the directory.
unfoldable pub json_files : Bytes → List Bytes → List Bytes
json_files dir [] = []
json_files dir (name ∷ names) =
    let rest = json_files dir names in
    if same_key (extension name) json then join dir name ∷ rest else rest

-- The names of the files in a directory.
abbrev pub names_of : List Entry → List Bytes
names_of [] = []
names_of ((name, true) ∷ entries) = names_of entries
names_of ((name, false) ∷ entries) = name ∷ names_of entries

snoc :
    (queue : List Bytes) (x : Bytes) (rest : List Bytes)
    → (queue ++ x ∷ []) ++ rest ≡ queue ++ x ∷ rest
snoc queue x rest = append_assoc queue (x ∷ []) rest

enqueue_files-json_files :
    (dir : Bytes) (entries : List Entry) (queue : List Bytes)
    → enqueue_files dir entries queue ≡ queue ++ json_files dir (names_of entries)
unfolding enqueue_files json_files
enqueue_files-json_files dir [] queue = sym (append-nil queue)
enqueue_files-json_files dir ((name, true) ∷ entries) queue =
    enqueue_files-json_files dir entries queue
enqueue_files-json_files dir ((name, false) ∷ entries) queue =
    elim (Bool-cases (same_key (extension name) json)) [
      | inl e ↦
          rw (enqueue_files, json_files, e)
            (enqueue_files-json_files dir entries (queue ++ join dir name ∷ [])
              ∙ snoc queue (join dir name) (json_files dir (names_of entries)))
      | inr e ↦ rw (enqueue_files, json_files, e) (enqueue_files-json_files dir entries queue)
    ]

module _ (wd : ℕ) (dir : Bytes) (watches : Watches (List Bytes)) where
  abbrev watched : Watches (List Bytes)
  watched = set_watch wd (dir, json, λ file x. (do_proc file x).0) watches

  handle_arrival :
      (e : Event) (queue : List Bytes)
      → IsArrival wd e
      → handle watched e.wd e.mask (length e.field) (c_string e.field) queue ≡ (
          if same_key (extension (c_string e.field)) json
          then queue ++ join dir (c_string e.field) ∷ []
          else queue)
  unfolding handle do_proc
  handle_arrival e queue (same, shown, named) =
      rw
        (
          handle,
          same,
          shown,
          named,
          find_watch-set_watch wd (dir, json, λ file x. (do_proc file x).0) watches,
        )
        refl

  handle_all-json_files :
      (events : List Event) (queue : List Bytes)
      → All (IsArrival wd) events
      → handle_all watched events queue
        ≡ queue ++ json_files dir (map (λ (e : Event). c_string e.field) events)
  unfolding handle_all json_files
  handle_all-json_files [] queue arrivals = sym (append-nil queue)
  handle_all-json_files (e ∷ events) queue (arrival, arrivals) =
      let rest = json_files dir (map (λ (e : Event). c_string e.field) events) in
      let name = c_string e.field in
      ap (handle_all watched events) (handle_arrival e queue arrival)
      ∙ elim (Bool-cases (same_key (extension name) json)) [
        | inl b ↦
            rw (json_files, b)
              (handle_all-json_files events (queue ++ join dir name ∷ []) arrivals
                ∙ snoc queue (join dir name) rest)
        | inr b ↦ rw (json_files, b) (handle_all-json_files events queue arrivals)
      ]

setup_lem :
    (params : Params) (disk : Disk) (connects : Bytes → Bytes → Bool)
    (dir output_dir failed_dir : Bytes)
    → All
        (λ (name : Bytes). connects name (or_else [] (params.get_str p_metrics)) ≡ true)
        metric_names
    → All
        (IsEmptyOrCreated disk)
        (or_else [] (params.get_str p_succeeded) ∷ failed_dir ∷ output_dir ∷ dir ∷ [])
    → (u : Setup) × (setup params disk connects dir output_dir failed_dir ≡ good u)
unfolding setup
setup_lem params disk connects dir output_dir failed_dir taken can =
    let backup_dir = or_else [] (params.get_str p_succeeded) in
    let (connected, c) =
      connect_all_lem connects metric_names (or_else [] (params.get_str p_metrics)) taken in
    let (created, m) =
      create_missing_lem disk [] (backup_dir ∷ failed_dir ∷ output_dir ∷ dir ∷ []) can in
    (members params output_dir failed_dir connected created, rw (setup, c, m) refl)

-- With its three parameters, when the metrics take its counters, each of its directories has no name,
-- is there or can be created, and the watched directory is listed without an exception, `init`
-- succeeds. After the kernel reported some arrivals in the watched directory, the queue has then,
-- behind what was in it, each file that was there and each that arrived, in order, if its extension is
-- ".json", and no others.
pub init-json_files :
    (params : Params) (disk : Disk) (connects : Bytes → Bytes → Bool) (wd : ℕ)
    (watches : Watches (List Bytes)) (queue : List Bytes) (events : List Event)
    (dir output_dir failed_dir : Bytes)
    → params.get_str p_watch ≡ some dir
    → params.get_str p_output ≡ some output_dir
    → params.get_str p_failed ≡ some failed_dir
    → All
        (λ (name : Bytes). connects name (or_else [] (params.get_str p_metrics)) ≡ true)
        metric_names
    → All
        (IsEmptyOrCreated disk)
        (or_else [] (params.get_str p_succeeded) ∷ failed_dir ∷ output_dir ∷ dir ∷ [])
    → (disk.lists dir).throws ≡ false
    → All (IsArrival wd) events
    → (u : Setup) × (watches' : Watches (List Bytes)) × (queue' : List Bytes) × (init params disk
          connects wd watches queue
        ≡ good (u, watches', queue'))
      × (handle_all watches' events queue'
          ≡ (queue ++ json_files dir (names_of (disk.lists dir).found))
            ++ json_files dir (map (λ (e : Event). c_string e.field) events))
unfolding init watch add_watch
init-json_files params disk connects wd watches queue events dir output_dir failed_dir w o f taken
      can listed arrivals =
    let entries = (disk.lists dir).found in
    let (u, e) = setup_lem params disk connects dir output_dir failed_dir taken can in
    (
      u,
      set_watch wd (dir, json, λ file x. (do_proc file x).0) watches,
      enqueue_files dir entries queue,
      rw (init, w, o, f, e, listed) refl,
      handle_all-json_files wd dir watches events (enqueue_files dir entries queue) arrivals
          ∙ ap
              (λ (q : List Bytes).
                q ++ json_files dir (map (λ (e : Event). c_string e.field) events))
              (enqueue_files-json_files dir entries queue),
    )
