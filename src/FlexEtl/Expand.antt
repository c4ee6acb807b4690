-- ===== src/FlexEtl/Expand.antt =====
-- src/flexetl/flexetl.cpp: `expandConfig`, the variables in the texts of the configuration. A setting
-- (contrib/libconfig) is a text, a list or group of settings, or of another type; an array is such.
pub mod Replace
pub mod Collect
pub mod TwoPasses
use flexetl.Prelude.{
  ℕ, Bool, true, false, List, [], ◌∷◌, ◌++◌, Option, none, some, length, ◌==◌, if◌then◌else◌,
}
use flexetl.Prelude.Words.{Bytes}
use flexetl.StdMap.{Map, find, update}

mutual
  pub data Setting : Type 0 where
    text : Bytes → Setting
    group : Settings → Setting
    other : Bytes → Setting

  pub data Settings : Type 0 where
    no_items : Settings
    item : Setting → Settings → Settings

abbrev pub add_first : ℕ → List Bytes → List Bytes
add_first c [] = (c ∷ []) ∷ []
add_first c (s ∷ array) = (c ∷ s) ∷ array

-- The loop of `std::getline(ss, item, '%')`: behind a last '%' there is no more item.
unfoldable pub split : Bytes → List Bytes
split [] = []
split (c ∷ s) = let rest = split s in if c == b'%' then [] ∷ rest else add_first c rest

-- `expandValues.insert({array[i], ""})` for each odd `i`: what is there already stays.
unfoldable pub insert_names : List Bytes → Map Bytes → Map Bytes
insert_names [] values = values
insert_names (a ∷ []) values = values
insert_names (a ∷ name ∷ array) values = insert_names array (update [] name (λ v. v) values)

abbrev pub is_empty : Bytes → Bool
is_empty [] = true
is_empty (b ∷ s) = false

-- A value that is there and not empty.
abbrev pub given : Option Bytes → Option Bytes
given none = none
given (some v) = if is_empty v then none else some v

abbrev pub glue : Bytes → Option Bytes → Option Bytes → Option Bytes
glue a none rest = none
glue a (some v) none = none
glue a (some v) (some s) = some (a ++ v ++ s)

-- The text with a value for each odd item, `none` if it throws.
unfoldable pub substitute : Map Bytes → List Bytes → Option Bytes
substitute values [] = some []
substitute values (a ∷ []) = some a
substitute values (a ∷ name ∷ array) =
    let rest = substitute values array in glue a (given (find name values)) rest

unfoldable pub expand_text : Bool → Bytes → Map Bytes → Option (Bytes × Map Bytes)
expand_text expand s values =
    let array = split s in
    if length array == 1
    then some (s, values)
    else if expand
    then (elim (substitute values array) [ none ↦ none | some s' ↦ some (s', values) ])
    else some (s, insert_names array values)

-- A call that may throw, and what is made of its result.
abbrev pub wrap : {A B : Type 0} → (A → B) → Option (A × Map Bytes) → Option (B × Map Bytes)
wrap f none = none
wrap f (some (a, values)) = some (f a, values)

abbrev pub and_then :
    {A B : Type 0}
    → Option (A × Map Bytes)
    → (A → Map Bytes → Option (B × Map Bytes))
    → Option (B × Map Bytes)
and_then none next = none
and_then (some (a, values)) next = next a values

-- `expandConfig(bExpand, settings, expandValues)`, `none` if it throws.
unfoldable mutual
  pub expand_config : Bool → Settings → Map Bytes → Option (Settings × Map Bytes)
  expand_config expand no_items values = some (no_items, values)
  expand_config expand (item s ss) values =
      and_then (expand_setting expand s values)
        (λ s' values'. wrap (item s') (expand_config expand ss values'))

  pub expand_setting : Bool → Setting → Map Bytes → Option (Setting × Map Bytes)
  expand_setting expand (text s) values = wrap text (expand_text expand s values)
  expand_setting expand (group ss) values = wrap group (expand_config expand ss values)
  expand_setting expand (other s) values = some (other s, values)

-- What the command line gives the registered flags: each key its value, empty if it gives none.
unfoldable pub flagged : (Bytes → Bytes) → Map Bytes → Map Bytes
flagged flags [] = []
flagged flags ((k, v) ∷ values) = (k, flags k) ∷ flagged flags values

-- What `FlexEtl::init` does with the two passes.
unfoldable pub expand_variables : (Bytes → Bytes) → Settings → Option Settings
expand_variables flags ss = elim (expand_config false ss []) [
  | none ↦ none
  | some (ss', values) ↦
      if length values == 0
      then some ss'
      else (elim (expand_config true ss' (flagged flags values)) [
        | none ↦ none
        | some (ss'', values') ↦ some ss''
      ])
]
