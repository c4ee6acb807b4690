-- ===== src/Nodes/Start.antt =====
-- src/flexetl/pipebase.cpp: `PipeBase::start`, with `Node::watch` and `Watcher::addWatch`. A handler is
-- what its call does to a state of everything; the directory is what is found in it.
use flexetl.Prelude.{
  ℕ, ◌≡◌, refl, ap, sym, ◌∙◌, map, ◌==◌, length, All, arith, Bool, true, false, List, [], ◌∷◌, ◌++◌,
  Option, none, some, Bool-cases, inl, inr, if◌then◌else◌,
}
use flexetl.Prelude.Words.{Bytes}
use flexetl.Paths.{join}
use flexetl.Nodes.Params.{
  Disk, Listing, Ending, good, refused, thrown, IsEmptyOrCreated, create_missing,
  create_missing_lem,
}
use flexetl.Nodes.Pipes.{Call}
use flexetl.Watcher.{Watch, Watches, add_watch, set_watch, find_watch, is_watched, handle}
use flexetl.Watcher.Buffer.{Event, handle_all}
use flexetl.ClickTbl.Load.{c_string}

-- An entry of a directory: its path, and whether it is a directory.
abbrev pub Entry : Type 0
Entry = Bytes × Bool

-- An event that reports a file in the directory with this descriptor.
abbrev pub IsArrival : ℕ → Event → Type 0
IsArrival wd e = (e.wd ≡ wd) × (is_watched e.mask ≡ true) × ((length e.field == 0) ≡ false)

-- The files among the entries.
abbrev pub files_of : List Entry → List Bytes
files_of [] = []
files_of ((path, true) ∷ entries) = files_of entries
files_of ((path, false) ∷ entries) = path ∷ files_of entries

same_number : (n : ℕ) → (n == n) ≡ true
same_number n = ground arith

module _ {S : Type 0} where
  -- The loop over the directory: `doProc` of each file, whatever it returns.
  unfoldable pub hand_over : Call S → List Entry → S → S
  hand_over h [] s = s
  hand_over h ((path, true) ∷ entries) s = hand_over h entries s
  hand_over h ((path, false) ∷ entries) s = hand_over h entries (h path s).0

  -- `Node::watch`, with the descriptor that `inotify_add_watch` gives: the callback drops the result
  -- of `doProc`, and there is none without a handler.
  unfoldable pub watch : ℕ → Option (Call S) → Bytes → Bytes → Watches S → Watches S × Bool
  watch wd none name ext watches = (watches, false)
  watch wd (some h) name ext watches =
      (add_watch wd name ext (λ file s. (h file s).0) watches, true)

  -- The loop over the directory, and the watch; an exception of the listing ends `start` behind the
  -- files that it handed over.
  unfoldable pub start_in :
      Bytes → Listing → ℕ → Call S → Watches S → S → Watches S × S × Ending {0} Unit
  start_in dir listing wd h watches s =
      let s' = hand_over h listing.found s in
      if listing.throws
      then (watches, s', thrown)
      else ((watch wd (some h) dir [] watches).0, s', good tt)

  -- `PipeBase::start`; the first argument is the parameter "watch", and the handler is the pipe itself.
  unfoldable pub start :
      Option Bytes → Disk → ℕ → Call S → Watches S → S → Watches S × S × Ending {0} Unit
  start none disk wd h watches s = (watches, s, refused)
  start (some dir) disk wd h watches s = elim (create_missing disk [] (dir ∷ [])) [
    | none ↦ (watches, s, thrown)
    | some created ↦ start_in dir (disk.lists dir) wd h watches s
  ]

  -- A handler's calls with some files, one after the other.
  unfoldable pub deliver : Call S → List Bytes → S → S
  deliver h [] s = s
  deliver h (file ∷ files) s = deliver h files (h file s).0

  deliver-append :
      (h : Call S) (a b : List Bytes) (s : S) → deliver h (a ++ b) s ≡ deliver h b (deliver h a s)
  unfolding deliver
  deliver-append h [] b s = refl
  deliver-append h (file ∷ a) b s = deliver-append h a b (h file s).0

  hand_over-deliver :
      (h : Call S) (entries : List Entry) (s : S)
      → hand_over h entries s ≡ deliver h (files_of entries) s
  unfolding hand_over deliver
  hand_over-deliver h [] s = refl
  hand_over-deliver h ((path, true) ∷ entries) s = hand_over-deliver h entries s
  hand_over-deliver h ((path, false) ∷ entries) s = hand_over-deliver h entries (h path s).0

  pub find_watch-set_watch :
      (wd : ℕ) (w : Watch S) (watches : Watches S) → find_watch wd (set_watch wd w watches) ≡ some w
  unfolding find_watch set_watch
  find_watch-set_watch wd w [] = rw (same_number wd) refl
  find_watch-set_watch wd w ((i, old) ∷ watches) = elim (Bool-cases (wd == i)) [
    | inl e ↦ rw (set_watch, e, find_watch, same_number wd) refl
    | inr e ↦ rw (set_watch, e, find_watch, e) (find_watch-set_watch wd w watches)
  ]

  handle_arrival :
      (wd : ℕ) (dir : Bytes) (h : Call S) (watches : Watches S) (e : Event) (s : S)
      → IsArrival wd e
      → handle
          (set_watch wd (dir, [], λ file x. (h file x).0) watches)
          e.wd
          e.mask
          (length e.field)
          (c_string e.field)
          s
        ≡ (h (join dir (c_string e.field)) s).0
  unfolding handle
  handle_arrival wd dir h watches e s (same, watched, named) =
      rw
        (
          handle,
          same,
          watched,
          named,
          find_watch-set_watch wd (dir, [], λ file x. (h file x).0) watches,
        )
        refl

  handle_all-deliver :
      (wd : ℕ) (dir : Bytes) (h : Call S) (watches : Watches S) (events : List Event) (s : S)
      → All (IsArrival wd) events
      → handle_all (set_watch wd (dir, [], λ file x. (h file x).0) watches) events s
        ≡ deliver h (map (λ (e : Event). join dir (c_string e.field)) events) s
  unfolding handle_all deliver
  handle_all-deliver wd dir h watches [] s arrivals = refl
  handle_all-deliver wd dir h watches (e ∷ events) s (arrival, arrivals) =
      ap (handle_all (set_watch wd (dir, [], λ file x. (h file x).0) watches) events)
        (handle_arrival wd dir h watches e s arrival)
      ∙ handle_all-deliver wd dir h watches events (h (join dir (c_string e.field)) s).0 arrivals

  -- If its directory is there or can be created, and is listed without an exception, `start` returns
  -- true, and from then on a pipe is called with each file that was in its directory, in the order of
  -- the directory, and then with each file whose arrival there the kernel reports, in order; a
  -- directory in it is left out.
  pub start-deliver :
      (dir : Bytes) (disk : Disk) (wd : ℕ) (h : Call S) (watches : Watches S) (events : List Event)
      (s : S)
      → IsEmptyOrCreated disk dir
      → (disk.lists dir).throws ≡ false
      → All (IsArrival wd) events
      → let (watches', s', started) = start (some dir) disk wd h watches s in
        (started ≡ good tt)
        × (handle_all watches' events s'
            ≡ deliver h
                (files_of (disk.lists dir).found
                  ++ map (λ (e : Event). join dir (c_string e.field)) events)
                s)
  unfolding start start_in watch add_watch
  start-deliver dir disk wd h watches events s can listed arrivals =
      let found = (disk.lists dir).found in
      let (created, c) = create_missing_lem disk [] (dir ∷ []) (can, tt) in
      rw (start, c, start_in, listed)
        (
          refl,
          handle_all-deliver wd dir h watches events (hand_over h found s) arrivals
              ∙ ap (deliver h (map (λ (e : Event). join dir (c_string e.field)) events))
                  (hand_over-deliver h found s)
              ∙ sym (
                  deliver-append h (files_of found)
                    (map (λ (e : Event). join dir (c_string e.field)) events) s),
        )
