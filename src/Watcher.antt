-- ===== src/Watcher.antt =====
-- src/flexetl/watcher.h and watcher.cpp: the loop over what inotify reports. A callback is what its
-- call with a file's name does to a state of everything.
pub mod Buffer
mod Tests
use flexetl.Prelude.{
  ℕ, zero, suc, ◌+◌, ◌*◌, ◌/◌, ◌%◌, ◌^◌, Bool, true, false, not, ◌&&◌, ◌||◌, List, [], ◌∷◌, ◌++◌,
  Option, none, some, ◌==◌, ltb, if◌then◌else◌, length, take, drop,
}
use flexetl.Prelude.Words.{Bytes, of_le}
use flexetl.Result.{Result, ok, throws, fault, out_of_fuel}
use flexetl.StdMap.{same_key}
use flexetl.ClickTbl.Load.{c_string}
use flexetl.Paths.{is_empty, join, extension}

-- An entry of `m_watchMap`: the directory, the extension, and the callback.
abbrev pub Watch : Type 0 → Type 0
Watch S = Bytes × Bytes × (Bytes → S → S)

abbrev pub Watches : Type 0 → Type 0
Watches S = List (ℕ × Watch S)

-- `mask & (IN_CLOSE_WRITE | IN_MOVED_TO)`: the bits 3 and 7.
unfoldable pub is_watched : ℕ → Bool
is_watched mask = mask / 8 % 2 == 1 || mask / 128 % 2 == 1

-- The `int` at a place of the buffer.
abbrev pub word_at : ℕ → Bytes → ℕ
word_at i buffer = of_le (take 4 (drop i buffer))

-- What a round of `lifeProc` meets: `poll` fails, or there is nothing within a second, `read` fails,
-- or it gives these bytes.
pub data Answer : Type 0 where
  poll_failed nothing read_failed : Answer
  bytes : Bytes → Answer

module _ {S : Type 0} where
  -- `m_watchMap.find(wd)` and `m_watchMap[wd] = watch`; a descriptor is its 32 bits.
  unfoldable pub find_watch : ℕ → Watches S → Option (Watch S)
  find_watch wd [] = none
  find_watch wd ((i, watch) ∷ watches) =
      let rest = find_watch wd watches in if wd == i then some watch else rest

  unfoldable pub set_watch : ℕ → Watch S → Watches S → Watches S
  set_watch wd watch [] = (wd, watch) ∷ []
  set_watch wd watch ((i, old) ∷ watches) =
      let rest = set_watch wd watch watches in
      if wd == i then (wd, watch) ∷ watches else (i, old) ∷ rest

  -- `addWatch`, for the descriptor that `inotify_add_watch` gave.
  unfoldable pub add_watch : ℕ → Bytes → Bytes → (Bytes → S → S) → Watches S → Watches S
  add_watch wd dir ext callback watches = set_watch wd (dir, ext, callback) watches

  -- The call that an event makes, by its descriptor, mask, length and name.
  unfoldable pub handle : Watches S → ℕ → ℕ → ℕ → Bytes → S → S
  handle watches wd mask len name s =
      if not (len == 0) && is_watched mask
      then (elim (find_watch wd watches) [
        | none ↦ s
        | some (dir, ext, callback) ↦
            if is_empty ext || same_key (extension name) ext then callback (join dir name) s else s
      ])
      else s

  -- The loop over the buffer from `i` on: `wd`, `mask`, `cookie` and `len` of 4 bytes each, and then
  -- `len` bytes with the name. A part of an event would be read from what the buffer held before.
  unfoldable pub process : Watches S → ℕ → Bytes → S → Result S
  process watches f [] s = ok s
  process watches zero (b ∷ buffer) s = out_of_fuel
  process watches (suc f) (b ∷ buffer) s =
      let event = b ∷ buffer in
      let len = word_at 12 event in
      let s' =
        handle watches (word_at 0 event) (word_at 4 event) len (c_string (drop 16 event)) s in
      let rest = process watches f (drop (16 + len) event) s' in
      if ltb (length event) 16 then fault else rest

  -- `lifeProc`: the state when it ends, and whether it is still running then.
  unfoldable pub life_proc : Watches S → List Answer → S → Result (S × Bool)
  life_proc watches [] s = ok (s, true)
  life_proc watches (poll_failed ∷ answers) s = ok (s, false)
  life_proc watches (read_failed ∷ answers) s = ok (s, false)
  life_proc watches (nothing ∷ answers) s = life_proc watches answers s
  life_proc watches (bytes buffer ∷ answers) s = elim (process watches (length buffer) buffer s) [
    | ok s' ↦ life_proc watches answers s'
    | throws e ↦ throws e
    | fault ↦ fault
    | out_of_fuel ↦ out_of_fuel
  ]
