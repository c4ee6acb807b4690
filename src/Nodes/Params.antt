-- ===== src/Nodes/Params.antt =====
-- src/flexetl/nodes.cpp: the parameters of a node, as `getStrParam` and `getIntParam` find them in the
-- settings (contrib/libconfig), and what the handlers' `init` makes of the directories.
use flexetl.Prelude.{
  ◌≡◌, ◌⊎◌, inl, inr, refl, Bool, true, false, List, [], ◌∷◌, ◌++◌, Option, none, some, All,
  Bool-cases, if◌then◌else◌,
}
use flexetl.Prelude.Int.{ℤ}
use flexetl.Prelude.Words.{Bytes}
use flexetl.Paths.{is_empty}

-- `none` where a look-up returns false and leaves its argument alone.
pub record Params : Type 0 where
  pub get_str : Bytes → Option Bytes
  pub get_int : Bytes → Option ℤ

abbrev pub or_else {ℓ} : {A : Type ℓ} → A → Option A → A
or_else d none = d
or_else d (some a) = a

-- A directory that is read: the entries that the loop comes to, each with its path or its name,
-- whichever the loop uses, and whether it is a directory; and whether an exception ends the loop
-- there, such as that of `directory_iterator` on a directory that cannot be opened.
pub record Listing : Type 0 where
  pub found : List (Bytes × Bool)
  pub throws : Bool

-- The file system, where these directories were created before: `exists`, `none` if it throws;
-- whether `create_directories` does not; and what is in a directory.
pub record Disk : Type 0 where
  pub exists : List Bytes → Bytes → Option Bool
  pub creates : List Bytes → Bytes → Bool
  pub lists : Bytes → Listing

-- How a call of `init` or `start` ends: it returns true with what it made, returns false, or throws.
pub data Ending {ℓ} (A : Type ℓ) : Type ℓ where
  good : A → Ending A
  refused thrown : Ending A

-- What must be there, and what may throw.
abbrev pub required {ℓ} : {A : Type ℓ} → Option A → Ending A
required none = refused
required (some a) = good a

abbrev pub unless_thrown {ℓ} : {A : Type ℓ} → Option A → Ending A
unless_thrown none = thrown
unless_thrown (some a) = good a

infixl 1 ◌>>=◌
abbrev pub ◌>>=◌ {ℓ κ} : {A : Type ℓ} {B : Type κ} → Ending A → (A → Ending B) → Ending B
good a >>= f = f a
refused >>= f = refused
thrown >>= f = thrown

-- The entries of a directory, unless the listing ends with an exception.
abbrev pub all_found : Listing → Option (List (Bytes × Bool))
all_found listing = if listing.throws then none else some listing.found

-- `create_directories` for a directory that is not there; the directories that were created, `none` if
-- there was an exception.
unfoldable pub create_needed : Disk → List Bytes → Bytes → Option (List Bytes)
create_needed disk created dir = elim (disk.exists created dir) [
  | none ↦ none
  | some true ↦ some created
  | some false ↦ if disk.creates created dir then some (created ++ dir ∷ []) else none
]

-- The same for each of some directories that has a name, in order.
unfoldable pub create_missing : Disk → List Bytes → List Bytes → Option (List Bytes)
create_missing disk created [] = some created
create_missing disk created (dir ∷ dirs) =
    elim (if is_empty dir then some created else create_needed disk created dir) [
      | none ↦ none
      | some created' ↦ create_missing disk created' dirs
    ]

-- `metrics()->connect(counter, name, root)` for each of some names, if a root is given: `connects` is
-- false where it throws, since a counter of another type has the name.
unfoldable pub connect_all :
    (Bytes → Bytes → Bool) → List Bytes → Bytes → Option (List (Bytes × Bytes))
connect_all connects [] root = some []
connect_all connects (name ∷ names) [] = some []
connect_all connects (name ∷ names) (b ∷ root) = elim (connect_all connects names (b ∷ root)) [
  | none ↦ none
  | some rest ↦ if connects name (b ∷ root) then some ((name, b ∷ root) ∷ rest) else none
]

-- The directory is there, or is created without an exception, whatever was created before.
abbrev pub CanCreate : Disk → Bytes → Type 0
CanCreate disk dir =
    (created : List Bytes)
    → (disk.exists created dir ≡ some true)
      ⊎ ((disk.exists created dir ≡ some false) × (disk.creates created dir ≡ true))

-- The same, or it has no name.
abbrev pub IsEmptyOrCreated : Disk → Bytes → Type 0
IsEmptyOrCreated disk dir = (is_empty dir ≡ true) ⊎ CanCreate disk dir

pub create_needed_lem :
    (disk : Disk) (created : List Bytes) (dir : Bytes)
    → CanCreate disk dir
    → (all : List Bytes) × (create_needed disk created dir ≡ some all)
unfolding create_needed
create_needed_lem disk created dir can = elim (can created) [
  | inl e ↦ (created, rw (create_needed, e) refl)
  | inr (e, c) ↦ (created ++ dir ∷ [], rw (create_needed, e, c) refl)
]

pub create_missing_lem :
    (disk : Disk) (created dirs : List Bytes)
    → All (IsEmptyOrCreated disk) dirs
    → (all : List Bytes) × (create_missing disk created dirs ≡ some all)
unfolding create_missing
create_missing_lem disk created [] can = (created, refl)
create_missing_lem disk created (dir ∷ dirs) (inl e, can) =
    let (all, h) = create_missing_lem disk created dirs can in (all, rw (create_missing, e) h)
create_missing_lem disk created (dir ∷ dirs) (inr c, can) = elim (Bool-cases (is_empty dir)) [
  | inl e ↦
      let (all, h) = create_missing_lem disk created dirs can in (all, rw (create_missing, e) h)
  | inr e ↦
      let (made, m) = create_needed_lem disk created dir c in
      let (all, h) = create_missing_lem disk made dirs can in (all, rw (create_missing, e, m) h)
]

pub connect_all_lem :
    (connects : Bytes → Bytes → Bool) (names : List Bytes) (root : Bytes)
    → All (λ (name : Bytes). connects name root ≡ true) names
    → (all : List (Bytes × Bytes)) × (connect_all connects names root ≡ some all)
unfolding connect_all
connect_all_lem connects [] root h = ([], refl)
connect_all_lem connects (name ∷ names) [] h = ([], refl)
connect_all_lem connects (name ∷ names) (b ∷ root) (c, h) =
    let (all, e) = connect_all_lem connects names (b ∷ root) h in
    ((name, b ∷ root) ∷ all, rw (connect_all, e, c) refl)
