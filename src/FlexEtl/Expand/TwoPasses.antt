-- ===== src/FlexEtl/Expand/TwoPasses.antt =====
-- src/flexetl/flexetl.cpp: the two passes of `expandConfig` together.
use mathlib.Core.Option
use flexetl.Prelude.{
  ℕ, ◌≡◌, refl, ap, sym, ◌∙◌, true, false, List, [], ◌∷◌, Option, none, some, length, ◌==◌, arith,
  inl, inr, ◌≢◌, Bool-cases, Ordering,
}
use flexetl.Prelude.Words.{Bytes}
use flexetl.StdMap.{Map, find}
use flexetl.StdMap.Key.{compare_bytes, eq_of_compare_bytes}
use flexetl.FlexEtl.Expand.{
  Setting, Settings, text, group, other, no_items, item, split, add_first, expand_config, flagged,
  expand_variables,
}
use flexetl.FlexEtl.Expand.Replace.{
  AllOdd, AllText, AllNames, AllIn, Gives, fill, replace_text, replace, replace_setting, both,
  with_values, expand_config-replace,
}
use flexetl.FlexEtl.Expand.Collect.{
  HasKey, collected, expand_config-collected, AllNames-map, AllNames-collected,
}

find-flagged :
    (flags : Bytes → Bytes) (k : Bytes) (values : Map Bytes)
    → find k (flagged flags values) ≡ Option.map (λ _. flags k) (find k values)
unfolding find flagged
find-flagged flags k [] = refl
find-flagged flags k ((j, v) ∷ values) =
    pick (compare_bytes k j) (λ e. eq_of_compare_bytes k j e) (find-flagged flags k values)
  where
    pick :
        (o : Ordering)
        → (o ≡ Ordering.eq → k ≡ j)
        → find k (flagged flags values) ≡ Option.map (λ _. flags k) (find k values)
        → (elim o [
          | Ordering.lt ↦ none
          | Ordering.eq ↦ some (flags j)
          | Ordering.gt ↦ find k (flagged flags values)
        ])
          ≡ Option.map
              (λ _. flags k)
              (elim o [ Ordering.lt ↦ none | Ordering.eq ↦ some v | Ordering.gt ↦ find k values ])
    pick Ordering.lt e rest = refl
    pick Ordering.eq e rest = ap (λ (x : Bytes). some (flags x)) (sym (e refl))
    pick Ordering.gt e rest = rest

HasKey-Gives :
    (flags : Bytes → Bytes) (values : Map Bytes) (k : Bytes)
    → HasKey values k
    → Gives flags (flagged flags values) k
HasKey-Gives flags values k (v, e) =
    find-flagged flags k values ∙ ap (λ (o : Option Bytes). Option.map (λ _. flags k) o) e

-- Settings without a variable.
abbrev IsImpossible : Bytes → Type 0
IsImpossible k = ⊥

add_first_cons : (c : ℕ) (array : List Bytes) → add_first c array ≢ []
add_first_cons c [] h = absurd cc
add_first_cons c (s ∷ array) h = absurd cc

split_nil : (s : Bytes) → split s ≡ [] → s ≡ []
unfolding split
split_nil [] h = refl
split_nil (c ∷ s) h = elim (Bool-cases (c == b'%')) [
  | inl e ↦ absurd (cc (rw (split, e) at h))
  | inr e ↦ absurd (add_first_cons c (split s) (rw (split, e) at h))
]

-- A text without a name is one item, or empty.
fill_same :
    (flags : Bytes → Bytes) (s : Bytes) (array : List Bytes)
    → split s ≡ array
    → (length array == 1) ≡ false
    → AllOdd IsImpossible array
    → fill flags array ≡ some s
unfolding fill
fill_same flags s [] e one h = ap some (sym (split_nil s e))
fill_same flags s (a ∷ []) e one h = absurd cc
fill_same flags s (a ∷ name ∷ array) e one h = absurd h.0

replace_text_same :
    (flags : Bytes → Bytes) (s : Bytes) → AllText IsImpossible s → replace_text flags s ≡ some s
unfolding replace_text
replace_text_same flags s h = elim (Bool-cases (length (split s) == 1)) [
  | inl e ↦ rw (replace_text, e) refl
  | inr e ↦ rw (replace_text, e) (fill_same flags s (split s) refl e (rw e at h))
]

mutual
  unfolding replace AllNames

  replace_same :
      (flags : Bytes → Bytes) (ss : Settings)
      → AllNames IsImpossible ss
      → replace flags ss ≡ some ss
  replace_same flags no_items h = refl
  replace_same flags (item s ss) (h, hs) =
      ap (λ (o : Option Setting). both o (replace flags ss)) (replace_setting_same flags s h)
      ∙ ap (both (some s)) (replace_same flags ss hs)

  replace_setting_same :
      (flags : Bytes → Bytes) (s : Setting)
      → AllIn IsImpossible s
      → replace_setting flags s ≡ some s
  replace_setting_same flags (text s) h =
      ap (λ (o : Option Bytes). Option.map text o) (replace_text_same flags s h)
  replace_setting_same flags (group ss) h =
      ap (λ (o : Option Settings). Option.map group o) (replace_same flags ss h)
  replace_setting_same flags (other s) h = refl

no_key : (values : Map Bytes) (k : Bytes) → length values ≡ 0 → HasKey values k → IsImpossible k
unfolding find
no_key [] k e (v, h) = absurd cc
no_key (x ∷ values) k e h = absurd (omega arith)

abbrev settings_of : Option (Settings × Map Bytes) → Option Settings
settings_of none = none
settings_of (some (ss, values)) = some ss

settings_of-with_values :
    (values : Map Bytes) (o : Option Settings) → settings_of (with_values values o) ≡ o
settings_of-with_values values none = refl
settings_of-with_values values (some ss) = refl

second_pass :
    (flags : Bytes → Bytes) (ss : Settings)
    → settings_of (expand_config true ss (flagged flags (collected ss []))) ≡ replace flags ss
second_pass flags ss =
    let values = flagged flags (collected ss []) in
    ap settings_of (
      expand_config-replace flags values ss (
        AllNames-map (HasKey (collected ss [])) (Gives flags values) ss
          (λ k h. HasKey-Gives flags (collected ss []) k h) (AllNames-collected ss [])))
    ∙ settings_of-with_values values (replace flags ss)

-- The two passes together, with the values of the command line, give the settings in which each text
-- has its variables replaced, by itself; they throw if and only if some variable in it has no value or
-- an empty one.
pub expand_variables-replace :
    (flags : Bytes → Bytes) (ss : Settings) → expand_variables flags ss ≡ replace flags ss
unfolding expand_variables
expand_variables-replace flags ss = elim (Bool-cases (length (collected ss []) == 0)) [
  | inl e ↦
      let none_there : length (collected ss []) ≡ 0 = ground arith in
      rw (expand_variables, expand_config-collected ss [], e)
        (sym (
          replace_same flags ss (
            AllNames-map (HasKey (collected ss [])) IsImpossible ss
              (λ k h. no_key (collected ss []) k none_there h) (AllNames-collected ss []))))
  | inr e ↦ rw (expand_variables, expand_config-collected ss [], e) (second_pass flags ss)
]
