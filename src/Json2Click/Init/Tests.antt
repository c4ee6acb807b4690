-- ===== src/Json2Click/Init/Tests.antt =====
-- src/flexetl/json2click.cpp: `init` with a small directory.
use flexetl.Prelude.{◌≡◌, refl, true, false, List, [], ◌∷◌, ◌++◌, none, some, map, Bool, inl, inr}
use flexetl.Prelude.Words.{Bytes}
use flexetl.StdMap.Key.{compare_bytes}
use flexetl.ClickTbl.Load.{c_string}
use flexetl.Paths.{join, extension, from_last_dot}
use flexetl.Nodes.Params.{Params, Disk, good}
use flexetl.Nodes.Start.{IsArrival}
use flexetl.Watcher.{Watches, is_watched}
use flexetl.Watcher.Buffer.{Event, handle_all}
use flexetl.Json2Click.Init.{Entry, Setup, json, init}
use flexetl.Json2Click.Init.Arrivals.{json_files, names_of, init-json_files}

-- Every parameter is "d"; the directory has "a.json", the directory "b.json" and "c", and "e.json"
-- arrives.
abbrev params : Params
params = record { get_str = λ name. some (b'd' ∷ []); get_int = λ name. none }

abbrev entries : Bytes → List Entry
entries dir = (b'a' ∷ json, false) ∷ (b'b' ∷ json, true) ∷ (b'c' ∷ [], false) ∷ []

-- The directory is there.
abbrev disk : Disk
disk = record {
  exists = λ created dir. some true;
  creates = λ created dir. true;
  lists = λ dir. record { found = entries dir; throws = false };
}

abbrev connects : Bytes → Bytes → Bool
connects name root = true

abbrev arrived : Event
arrived = record { wd = 1; mask = 128; cookie = 0; field = (b'e' ∷ json) ++ 0 ∷ [] }

arrived-IsArrival : IsArrival 1 arrived
unfolding is_watched
arrived-IsArrival = (refl, refl, refl)

names_found :
    json_files (b'd' ∷ []) (names_of (entries (b'd' ∷ []))) ≡ (b'd' ∷ b'/' ∷ b'a' ∷ json) ∷ []
unfolding json_files join extension from_last_dot compare_bytes
names_found = refl

init-json_files_example :
    (u : Setup) × (watches' : Watches (List Bytes)) × (queue' : List Bytes) × (init params disk
        connects 1 [] []
      ≡ good (u, watches', queue'))
    × (handle_all watches' (arrived ∷ []) queue'
        ≡ ([] ++ json_files (b'd' ∷ []) (names_of (entries (b'd' ∷ []))))
          ++ json_files (b'd' ∷ []) (map (λ (e : Event). c_string e.field) (arrived ∷ [])))
init-json_files_example =
    init-json_files params disk connects 1 [] [] (arrived ∷ []) (b'd' ∷ []) (b'd' ∷ []) (b'd' ∷ [])
      refl refl refl (refl, (refl, (refl, (refl, tt))))
      (
        inr (λ created. inl refl),
        (inr (λ created. inl refl), (inr (λ created. inl refl), (inr (λ created. inl refl), tt))),
      )
      refl (arrived-IsArrival, tt)
