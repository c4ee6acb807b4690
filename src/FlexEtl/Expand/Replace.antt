-- ===== src/FlexEtl/Expand/Replace.antt =====
-- The second pass of `expandConfig`, and what it is to do.
use flexetl.Prelude.{
  ◌≡◌, refl, ap, ◌∙◌, true, List, [], ◌∷◌, Option, none, some, length, ◌==◌, if◌then◌else◌, inl,
  inr, Bool-cases,
}
use mathlib.Core.Option
use flexetl.Prelude.Words.{Bytes}
use flexetl.StdMap.{Map, find}
use flexetl.FlexEtl.Expand.{
  Setting, Settings, text, group, other, no_items, item, split, given, glue, substitute,
  expand_text, expand_config, expand_setting, wrap, and_then,
}

-- The settings with each variable replaced by its value, by itself: `none` if some is empty.
unfoldable pub fill : (Bytes → Bytes) → List Bytes → Option Bytes
fill flags [] = some []
fill flags (a ∷ []) = some a
fill flags (a ∷ name ∷ array) =
    let rest = fill flags array in glue a (given (some (flags name))) rest

unfoldable pub replace_text : (Bytes → Bytes) → Bytes → Option Bytes
replace_text flags s = if length (split s) == 1 then some s else fill flags (split s)

abbrev pub both : Option Setting → Option Settings → Option Settings
both none ss = none
both (some s) none = none
both (some s) (some ss) = some (item s ss)

unfoldable mutual
  pub replace : (Bytes → Bytes) → Settings → Option Settings
  replace flags no_items = some no_items
  replace flags (item s ss) = both (replace_setting flags s) (replace flags ss)

  pub replace_setting : (Bytes → Bytes) → Setting → Option Setting
  replace_setting flags (text s) = Option.map text (replace_text flags s)
  replace_setting flags (group ss) = Option.map group (replace flags ss)
  replace_setting flags (other s) = some (other s)

-- `P` holds of the name of each variable.
abbrev pub AllOdd : (Bytes → Type 0) → List Bytes → Type 0
AllOdd P [] = Unit
AllOdd P (a ∷ []) = Unit
AllOdd P (a ∷ name ∷ array) = P name × AllOdd P array

abbrev pub AllText : (Bytes → Type 0) → Bytes → Type 0
AllText P s = if length (split s) == 1 then Unit else AllOdd P (split s)

unfoldable mutual
  pub AllNames : (Bytes → Type 0) → Settings → Type 0
  AllNames P no_items = Unit
  AllNames P (item s ss) = AllIn P s × AllNames P ss

  pub AllIn : (Bytes → Type 0) → Setting → Type 0
  AllIn P (text s) = AllText P s
  AllIn P (group ss) = AllNames P ss
  AllIn P (other s) = Unit

-- The second pass, with a value for each name.
abbrev pub Gives : (Bytes → Bytes) → Map Bytes → Bytes → Type 0
Gives flags values k = find k values ≡ some (flags k)

substitute-fill :
    (flags : Bytes → Bytes) (values : Map Bytes) (array : List Bytes)
    → AllOdd (Gives flags values) array
    → substitute values array ≡ fill flags array
unfolding substitute fill
substitute-fill flags values [] h = refl
substitute-fill flags values (a ∷ []) h = refl
substitute-fill flags values (a ∷ name ∷ array) (e, h) =
    rw e (ap (glue a (given (some (flags name)))) (substitute-fill flags values array h))

abbrev pub with_values {ℓ} : {A : Type ℓ} → Map Bytes → Option A → Option (A × Map Bytes)
with_values values none = none
with_values values (some a) = some (a, values)

filled :
    (flags : Bytes → Bytes) (values : Map Bytes) (array : List Bytes)
    → AllOdd (Gives flags values) array
    → (elim (substitute values array) [ none ↦ none | some s' ↦ some (s', values) ])
      ≡ with_values values (fill flags array)
filled flags values array h = ap (with_values values) (substitute-fill flags values array h)

expand_text-replace :
    (flags : Bytes → Bytes) (values : Map Bytes) (s : Bytes)
    → AllText (Gives flags values) s
    → expand_text true s values ≡ with_values values (replace_text flags s)
unfolding expand_text replace_text
expand_text-replace flags values s h = elim (Bool-cases (length (split s) == 1)) [
  | inl e ↦ rw (expand_text, replace_text, e) refl
  | inr e ↦ rw (expand_text, replace_text, e) (filled flags values (split s) (rw e at h))
]

wrap-with_values :
    {A B : Type 0} (f : A → B) (values : Map Bytes) (o : Option A)
    → wrap f (with_values values o) ≡ with_values values (Option.map f o)
wrap-with_values f values none = refl
wrap-with_values f values (some a) = refl

and_then-both :
    (values : Map Bytes) (o : Option Setting) (q : Option Settings)
    (next : Map Bytes → Option (Settings × Map Bytes))
    → next values ≡ with_values values q
    → and_then (with_values values o) (λ s' values'. wrap (item s') (next values'))
      ≡ with_values values (both o q)
and_then-both values none q next h = refl
and_then-both values (some s') none next h = ap (wrap (item s')) h
and_then-both values (some s') (some ss') next h = ap (wrap (item s')) h

mutual
  unfolding expand_config replace AllNames

  pub expand_config-replace :
      (flags : Bytes → Bytes) (values : Map Bytes) (ss : Settings)
      → AllNames (Gives flags values) ss
      → expand_config true ss values ≡ with_values values (replace flags ss)
  expand_config-replace flags values no_items h = refl
  expand_config-replace flags values (item s ss) (h, hs) =
      ap
        (λ (r : Option (Setting × Map Bytes)).
          and_then r (λ s' values'. wrap (item s') (expand_config true ss values')))
        (expand_setting-replace flags values s h)
      ∙ and_then-both values (replace_setting flags s) (replace flags ss)
          (λ v. expand_config true ss v) (expand_config-replace flags values ss hs)

  expand_setting-replace :
      (flags : Bytes → Bytes) (values : Map Bytes) (s : Setting)
      → AllIn (Gives flags values) s
      → expand_setting true s values ≡ with_values values (replace_setting flags s)
  expand_setting-replace flags values (text s) h =
      ap (wrap text) (expand_text-replace flags values s h)
      ∙ wrap-with_values text values (replace_text flags s)
  expand_setting-replace flags values (group ss) h =
      ap (wrap group) (expand_config-replace flags values ss h)
      ∙ wrap-with_values group values (replace flags ss)
  expand_setting-replace flags values (other s) h = refl
