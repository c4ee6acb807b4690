-- ===== src/FlexEtl/Expand/Collect.antt =====
-- The first pass of `expandConfig`: the names of the variables.
use flexetl.Prelude.{
  ◌≡◌, refl, ap, ◌∙◌, Bool, true, false, List, [], ◌∷◌, Option, some, length, ◌==◌, if◌then◌else◌,
  inl, inr, Bool-cases,
}
use flexetl.Prelude.Words.{Bytes}
use flexetl.StdMap.{Map, find, update, find-update, or_default, same_key_self, same_key}
use flexetl.FlexEtl.Expand.Replace.{AllOdd, AllText, AllNames, AllIn}
use flexetl.FlexEtl.Expand.{
  Setting, Settings, text, group, other, no_items, item, split, insert_names, expand_text,
  expand_config, expand_setting, wrap, and_then,
}

-- The first pass changes no setting; a name in the map stays there.
abbrev pub HasKey : Map Bytes → Bytes → Type 0
HasKey values k = (v : Bytes) × (find k values ≡ some v)

unfoldable mutual
  pub collected : Settings → Map Bytes → Map Bytes
  collected no_items values = values
  collected (item s ss) values = collected ss (collected_in s values)

  pub collected_in : Setting → Map Bytes → Map Bytes
  collected_in (text s) values =
      if length (split s) == 1 then values else insert_names (split s) values
  collected_in (group ss) values = collected ss values
  collected_in (other s) values = values

first_text :
    (s : Bytes) (values : Map Bytes)
    → expand_text false s values ≡ some (s, collected_in (text s) values)
unfolding expand_text collected
first_text s values = elim (Bool-cases (length (split s) == 1)) [
  | inl e ↦ rw (expand_text, collected_in, e) refl
  | inr e ↦ rw (expand_text, collected_in, e) refl
]

mutual
  unfolding expand_config collected

  pub expand_config-collected :
      (ss : Settings) (values : Map Bytes)
      → expand_config false ss values ≡ some (ss, collected ss values)
  expand_config-collected no_items values = refl
  expand_config-collected (item s ss) values =
      ap
        (λ (r : Option (Setting × Map Bytes)).
          and_then r (λ s' values'. wrap (item s') (expand_config false ss values')))
        (expand_setting-collected s values)
      ∙ ap (wrap (item s)) (expand_config-collected ss (collected_in s values))

  expand_setting-collected :
      (s : Setting) (values : Map Bytes)
      → expand_setting false s values ≡ some (s, collected_in s values)
  expand_setting-collected (text s) values = ap (wrap text) (first_text s values)
  expand_setting-collected (group ss) values = ap (wrap group) (expand_config-collected ss values)
  expand_setting-collected (other s) values = refl

-- An insertion keeps every key, and has its own.
HasKey-update :
    (k name : Bytes) (values : Map Bytes)
    → HasKey values k
    → HasKey (update [] name (λ v. v) values) k
HasKey-update k name values (v, e) = elim (Bool-cases (same_key k name)) [
  | inl same ↦
      (or_default [] (find name values), find-update [] name k (λ v. v) values ∙ rw same refl)
  | inr same ↦ (v, find-update [] name k (λ v. v) values ∙ rw same e)
]

HasKey-new : (name : Bytes) (values : Map Bytes) → HasKey (update [] name (λ v. v) values) name
HasKey-new name values = (
  or_default [] (find name values),
  find-update [] name name (λ v. v) values ∙ rw (same_key_self name) refl,
)

HasKey-insert_names :
    (k : Bytes) (array : List Bytes) (values : Map Bytes)
    → HasKey values k
    → HasKey (insert_names array values) k
unfolding insert_names
HasKey-insert_names k [] values h = h
HasKey-insert_names k (a ∷ []) values h = h
HasKey-insert_names k (a ∷ name ∷ array) values h =
    HasKey-insert_names k array (update [] name (λ v. v) values) (HasKey-update k name values h)

AllOdd-insert_names :
    (array : List Bytes) (values : Map Bytes) → AllOdd (HasKey (insert_names array values)) array
unfolding insert_names
AllOdd-insert_names [] values = tt
AllOdd-insert_names (a ∷ []) values = tt
AllOdd-insert_names (a ∷ name ∷ array) values =
    let values' = update [] name (λ v. v) values in
    (
      HasKey-insert_names name array values' (HasKey-new name values),
      AllOdd-insert_names array values',
    )

HasKey-if :
    (b : Bool) (k : Bytes) (x y : Map Bytes)
    → HasKey x k
    → HasKey y k
    → HasKey (if b then x else y) k
HasKey-if true k x y h g = h
HasKey-if false k x y h g = g

mutual
  unfolding collected

  HasKey-collected :
      (k : Bytes) (ss : Settings) (values : Map Bytes)
      → HasKey values k
      → HasKey (collected ss values) k
  HasKey-collected k no_items values h = h
  HasKey-collected k (item s ss) values h =
      HasKey-collected k ss (collected_in s values) (HasKey-collected_in k s values h)

  HasKey-collected_in :
      (k : Bytes) (s : Setting) (values : Map Bytes)
      → HasKey values k
      → HasKey (collected_in s values) k
  HasKey-collected_in k (text s) values h =
      HasKey-if (length (split s) == 1) k values (insert_names (split s) values) h
        (HasKey-insert_names k (split s) values h)
  HasKey-collected_in k (group ss) values h = HasKey-collected k ss values h
  HasKey-collected_in k (other s) values h = h

pub AllOdd-map :
    (P Q : Bytes → Type 0) (array : List Bytes)
    → ((k : Bytes) → P k → Q k)
    → AllOdd P array
    → AllOdd Q array
AllOdd-map P Q [] f h = tt
AllOdd-map P Q (a ∷ []) f h = tt
AllOdd-map P Q (a ∷ name ∷ array) f (h, hs) = (f name h, AllOdd-map P Q array f hs)

AllText-map :
    (P Q : Bytes → Type 0) (s : Bytes) → ((k : Bytes) → P k → Q k) → AllText P s → AllText Q s
AllText-map P Q s f h = elim (Bool-cases (length (split s) == 1)) [
  | inl e ↦ rw e tt
  | inr e ↦ rw e (AllOdd-map P Q (split s) f (rw e at h))
]

mutual
  unfolding AllNames

  pub AllNames-map :
      (P Q : Bytes → Type 0) (ss : Settings)
      → ((k : Bytes) → P k → Q k)
      → AllNames P ss
      → AllNames Q ss
  AllNames-map P Q no_items f h = tt
  AllNames-map P Q (item s ss) f (h, hs) = (AllIn-map P Q s f h, AllNames-map P Q ss f hs)

  AllIn-map :
      (P Q : Bytes → Type 0) (s : Setting) → ((k : Bytes) → P k → Q k) → AllIn P s → AllIn Q s
  AllIn-map P Q (text s) f h = AllText-map P Q s f h
  AllIn-map P Q (group ss) f h = AllNames-map P Q ss f h
  AllIn-map P Q (other s) f h = tt

AllText-collected_in :
    (s : Bytes) (values : Map Bytes) → AllText (HasKey (collected_in (text s) values)) s
unfolding collected
AllText-collected_in s values = elim (Bool-cases (length (split s) == 1)) [
  | inl e ↦ rw e tt
  | inr e ↦ rw (collected_in, e) (AllOdd-insert_names (split s) values)
]

-- Behind the first pass every name is in the map.
mutual
  unfolding AllNames collected

  pub AllNames-collected :
      (ss : Settings) (values : Map Bytes) → AllNames (HasKey (collected ss values)) ss
  AllNames-collected no_items values = tt
  AllNames-collected (item s ss) values = (
    AllIn-map (HasKey (collected_in s values)) (HasKey (collected ss (collected_in s values))) s
        (λ k h. HasKey-collected k ss (collected_in s values) h) (AllIn-collected_in s values),
    AllNames-collected ss (collected_in s values),
  )

  AllIn-collected_in : (s : Setting) (values : Map Bytes) → AllIn (HasKey (collected_in s values)) s
  AllIn-collected_in (text s) values = AllText-collected_in s values
  AllIn-collected_in (group ss) values = AllNames-collected ss values
  AllIn-collected_in (other s) values = tt
