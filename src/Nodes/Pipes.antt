-- ===== src/Nodes/Pipes.antt =====
-- src/flexetl/pipeline.cpp and pipeset.cpp: `doProc`. The handlers are those of the subnodes, in
-- order, `none` for a subnode without one.
use flexetl.Prelude.{
  ◌≡◌, refl, ap, Bool, true, false, List, [], ◌∷◌, Option, none, some, map, if◌then◌else◌,
}
use flexetl.Prelude.Words.{Bytes}

-- The call of a handler with a file name.
abbrev pub Call : Type 0 → Type 0
Call S = Bytes → S → S × Bool

module _ {S : Type 0} where
  -- `PipeLine::doProc`; `PipeBase::doProc` at its end is that of `IHandler`, which returns true.
  unfoldable pub pipe_line : List (Option (Call S)) → Bytes → S → S × Bool
  pipe_line [] name s = (s, true)
  pipe_line (none ∷ hs) name s = (s, false)
  pipe_line (some h ∷ hs) name s =
      let (s', res) = h name s in
      let rest = pipe_line hs name s' in if res then rest else (s', false)

  -- The loop of `PipeSet::doProc`: `res && doProc(...)` makes no call once `res` is false.
  unfoldable pub pipe_set_loop : List (Option (Call S)) → Bytes → Bool → S → S × Bool
  pipe_set_loop [] name res s = (s, res)
  pipe_set_loop (none ∷ hs) name res s = pipe_set_loop hs name res s
  pipe_set_loop (some h ∷ hs) name true s = let (s', res) = h name s in pipe_set_loop hs name res s'
  pipe_set_loop (some h ∷ hs) name false s = pipe_set_loop hs name false s

  -- `PipeSet::doProc`; `remove` is `moveFile("", fileName)`, whose result is not looked at.
  unfoldable pub pipe_set : (Bytes → S → S) → List (Option (Call S)) → Bytes → S → S × Bool
  pipe_set remove hs name s = let (s', res) = pipe_set_loop hs name true s in (remove name s', res)

  loop-false :
      (hs : List (Option (Call S))) (name : Bytes) (s : S)
      → pipe_set_loop hs name false s ≡ (s, false)
  unfolding pipe_set_loop
  loop-false [] name s = refl
  loop-false (none ∷ hs) name s = loop-false hs name s
  loop-false (some h ∷ hs) name s = loop-false hs name s

  loop_step :
      (hs : List (Call S)) (name : Bytes) (b : Bool) (s : S)
      → pipe_set_loop (map some hs) name true s ≡ pipe_line (map some hs) name s
      → pipe_set_loop (map some hs) name b s
        ≡ (if b then pipe_line (map some hs) name s else (s, false))
  loop_step hs name true s h = h
  loop_step hs name false s h = loop-false (map some hs) name s

  loop_lem :
      (hs : List (Call S)) (name : Bytes) (s : S)
      → pipe_set_loop (map some hs) name true s ≡ pipe_line (map some hs) name s
  unfolding pipe_set_loop pipe_line
  loop_lem [] name s = refl
  loop_lem (h ∷ hs) name s =
      loop_step hs name (h name s).1 (h name s).0 (loop_lem hs name (h name s).0)

  -- When each subnode has a handler, a set of pipes makes the same calls as a pipe line, up to the
  -- first handler that fails, and returns the same; then it removes the file, also if one failed.
  pub pipe_set-pipe_line :
      (remove : Bytes → S → S) (hs : List (Call S)) (name : Bytes) (s : S)
      → let (s', res) = pipe_line (map some hs) name s in
        pipe_set remove (map some hs) name s ≡ (remove name s', res)
  unfolding pipe_set
  pipe_set-pipe_line remove hs name s =
      ap (λ (r : S × Bool). (remove name r.0, r.1)) (loop_lem hs name s)
