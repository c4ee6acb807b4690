-- ===== src/Backuper/Clean.antt =====
-- Which files `Backuper` removes.
use mathlib.Core.Option
use flexetl.Prelude.{
  ◌≡◌, refl, ap, sym, ◌∙◌, Bool, true, false, List, [], ◌∷◌, Option, none, some, inl, inr,
  if◌then◌else◌, Ordering, Bool-cases,
}
use flexetl.Prelude.Int.{ℤ}
use flexetl.Prelude.Words.{Bytes}
use flexetl.StdMap.{Map, find, IsSorted, IsAbove, same_key, eq_of_same_key}
use flexetl.StdMap.Key.{compare_bytes, eq_of_compare_bytes, lt_trans, IsLess}
use flexetl.Backuper.{Entry, Directories, Answers, clean_entries, change, clean_all}

-- The entries of `d` when those of `path` are changed.
abbrev changed : Bool → (List Entry → List Entry) → Option (List Entry) → Option (List Entry)
changed b f o = if b then Option.map f o else o

changed-none : (b : Bool) (f : List Entry → List Entry) → changed b f none ≡ none
changed-none true f = refl
changed-none false f = refl

find-change :
    (d path : Bytes) (f : List Entry → List Entry) (m : Directories)
    → find d (change path f m) ≡ changed (same_key d path) f (find d m)
unfolding find change
find-change d path f [] = sym (changed-none (same_key d path) f)
find-change d path f ((j, entries) ∷ m) = elim (Bool-cases (same_key j path)) [
  | inl e ↦
      let same : j ≡ path = eq_of_same_key j path e in
      rw (change, e, ← same) (here (compare_bytes d j))
  | inr e ↦
      rw (change, e)
        (there (compare_bytes d j)
          (λ same. ap (λ (x : Bytes). same_key x path) (eq_of_compare_bytes d j same) ∙ e)
          (find-change d path f m))
]
  where
    here :
        (o : Ordering)
        → (elim o [ Ordering.lt ↦ none | Ordering.eq ↦ some (f entries) | Ordering.gt ↦ find d m ])
          ≡ changed
              (elim o [ Ordering.eq ↦ true | _ ↦ false ])
              f
              (elim o [ Ordering.lt ↦ none | Ordering.eq ↦ some entries | Ordering.gt ↦ find d m ])
    here Ordering.lt = refl
    here Ordering.eq = refl
    here Ordering.gt = refl

    there :
        (o : Ordering)
        → (o ≡ Ordering.eq → same_key d path ≡ false)
        → find d (change path f m) ≡ changed (same_key d path) f (find d m)
        → (elim o [
          | Ordering.lt ↦ none
          | Ordering.eq ↦ some entries
          | Ordering.gt ↦ find d (change path f m)
        ])
          ≡ changed
              (same_key d path)
              f
              (elim o [ Ordering.lt ↦ none | Ordering.eq ↦ some entries | Ordering.gt ↦ find d m ])
    there Ordering.lt other rest = sym (changed-none (same_key d path) f)
    there Ordering.eq other rest = rw (other refl) refl
    there Ordering.gt other rest = rest

-- The entries of a directory behind a round that cleans, when these are the extensions registered for
-- it, if any.
abbrev pub expected : ℤ → Answers → Option (List Bytes) → Option (List Entry) → Option (List Entry)
expected clean_time a none o = o
expected clean_time a (some exts) o = Option.map (clean_entries clean_time a exts) o

find_above : {V : Type 0} (d k : Bytes) (m : Map V) → IsLess d k → IsAbove k m → find d m ≡ none
unfolding find
find_above d k [] l h = refl
find_above d k ((j, v) ∷ m) l h = rw (find, lt_trans d k j l h) refl

above_none : {V : Type 0} (k : Bytes) (m : Map V) → IsAbove k m → find k m ≡ none
unfolding find
above_none k [] h = refl
above_none k ((j, v) ∷ m) h = rw (find, h) refl

pub find-clean_all :
    (clean_time : ℤ) (a : Answers) (d : Bytes) (dirs : Map (List Bytes)) (m : Directories)
    → IsSorted dirs
    → find d (clean_all clean_time a dirs m) ≡ expected clean_time a (find d dirs) (find d m)
unfolding clean_all find
find-clean_all clean_time a d [] m h = refl
find-clean_all clean_time a d ((path, exts) ∷ dirs) m (above, sorted) =
    let f = clean_entries clean_time a exts in
    find-clean_all clean_time a d dirs (change path f m) sorted
    ∙ ap (expected clean_time a (find d dirs)) (find-change d path f m)
    ∙ pick (compare_bytes d path) (λ l. find_above d path dirs l above)
        (λ e. find_above_self (eq_of_compare_bytes d path e))
  where
    find_above_self : d ≡ path → find d dirs ≡ none
    find_above_self e = rw e (above_none path dirs above)

    pick :
        (o : Ordering)
        → (o ≡ Ordering.lt → find d dirs ≡ none)
        → (o ≡ Ordering.eq → find d dirs ≡ none)
        → expected clean_time a (find d dirs) (
            changed
              (elim o [ Ordering.eq ↦ true | _ ↦ false ])
              (clean_entries clean_time a exts)
              (find d m))
          ≡ expected clean_time a
              (elim o [ Ordering.lt ↦ none | Ordering.eq ↦ some exts | Ordering.gt ↦ find d dirs ])
              (find d m)
    pick Ordering.lt less same = rw (less refl) refl
    pick Ordering.eq less same = rw (same refl) refl
    pick Ordering.gt less same = refl
