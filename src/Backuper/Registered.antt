-- ===== src/Backuper/Registered.antt =====
-- What the thread of src/flexetl/backuper.cpp knows of the calls of `addBackupDir`.
use flexetl.Prelude.{
  ◌≡◌, ◌⊎◌, ◌↔◌, refl, ap, sym, ◌∙◌, Bool, true, false, ◌||◌, List, [], ◌∷◌, ◌++◌, Option, none,
  some, inl, inr, Bool-cases, arith,
}
use flexetl.Prelude.Int.{ℤ}
use flexetl.Prelude.Words.{Bytes}
use flexetl.StdMap.{Map, find, find-update, same_key, same_key_self, eq_of_same_key, or_default}
use flexetl.Backuper.{Answers, State, has, insert_ext, register, round, rounds}

-- In one of these rounds the directory came from the queue with the extension.
abbrev pub Registered : Bytes → Bytes → List Answers → Type 0
Registered d ext [] = ⊥
Registered d ext (a ∷ answers) = (a.registers ≡ some (d, ext)) ⊎ Registered d ext answers

-- `m_backupDirs` has the extension for the directory.
abbrev pub has_in : Bytes → Option (List Bytes) → Bool
has_in ext none = false
has_in ext (some exts) = has ext exts

has-append :
    (x ext : Bytes) (exts : List Bytes) → has x (exts ++ ext ∷ []) ≡ same_key x ext || has x exts
unfolding has
has-append x ext [] = refl
has-append x ext (e ∷ exts) = rw (has, has-append x ext exts) (swap (same_key x e) (same_key x ext))
  where
    swap : (a b : Bool) → a || (b || has x exts) ≡ b || (a || has x exts)
    swap true true = refl
    swap true false = refl
    swap false b = refl

has_same :
    (x ext : Bytes) (exts : List Bytes)
    → has ext exts ≡ true
    → same_key x ext ≡ true
    → has x exts ≡ true
has_same x ext exts h e = rw (eq_of_same_key x ext e) h

has-insert_ext :
    (x ext : Bytes) (exts : List Bytes) → has x (insert_ext ext exts) ≡ same_key x ext || has x exts
has-insert_ext x ext exts = elim (Bool-cases (has ext exts)) [
  | inr e ↦ rw e (has-append x ext exts)
  | inl e ↦ elim (Bool-cases (same_key x ext)) [
    | inl k ↦ rw (e, k) (has_same x ext exts e k)
    | inr k ↦ rw (e, k) refl
  ]
]

has-or_default : (x : Bytes) (o : Option (List Bytes)) → has x (or_default [] o) ≡ has_in x o
unfolding has
has-or_default x none = refl
has-or_default x (some exts) = refl

-- An extension is there behind a registration if it was there or is the registered one.
register_lem :
    (d x : Bytes) (r : Option (Bytes × Bytes)) (dirs : Map (List Bytes))
    → (has_in x (find d (register r dirs)) ≡ true)
      ↔ ((r ≡ some (d, x)) ⊎ (has_in x (find d dirs) ≡ true))
unfolding register
register_lem d x none dirs = (λ h. inr h, λ h. elim h [ inl e ↦ absurd cc | inr h ↦ h ])
register_lem d x (some (path, ext)) dirs =
    let f = find-update [] path d (insert_ext ext) dirs in
    elim (Bool-cases (same_key d path)) [
      | inr e ↦
          rw (register, f, e)
            (λ h. inr h, λ h. elim h [ inl s ↦ absurd (other d path e (first s)) | inr h ↦ h ])
      | inl e ↦
          let same : d ≡ path = eq_of_same_key d path e in
          let h₁ = has-insert_ext x ext (or_default [] (find path dirs)) in
          let h₂ = has-or_default x (find path dirs) in
          rw (register, f, e, h₁, h₂, ← same) (either (same_key x ext) refl)
    ]
  where
    first : {a b c e : Bytes} → ◌≡◌ {A = Option (Bytes × Bytes)} (some (a, b)) (some (c, e)) → c ≡ a
    first s = cc

    other : (a b : Bytes) → same_key a b ≡ false → a ≡ b → ⊥
    other a b e s = absurd (cc (e, same_key_self b, ap (λ (y : Bytes). same_key y b) s))

    either :
        (b : Bool)
        → same_key x ext ≡ b
        → (b || has_in x (find d dirs) ≡ true) ↔ (
            ◌≡◌ {A = Option (Bytes × Bytes)} (some (d, ext)) (some (d, x))
            ⊎ (has_in x (find d dirs) ≡ true))
    either true e =
        (λ h. inl (ap (λ (y : Bytes). some (d, y)) (sym (eq_of_same_key x ext e))), λ h. refl)
    either false e =
        (λ h. inr h, λ h. elim h [ inl s ↦ absurd (other x ext e (second s)) | inr h ↦ h ])
      where
        second : ◌≡◌ {A = Option (Bytes × Bytes)} (some (d, ext)) (some (d, x)) → x ≡ ext
        second s = cc

-- A round registers, whether it cleans or not.
pub round-register :
    (clean_time : ℤ) (a : Answers) (s : State)
    → (round clean_time a s).backup_dirs ≡ register a.registers s.backup_dirs
unfolding round
round-register clean_time a s = ground arith

-- Over some rounds an extension is there for a directory if it was there before or was registered for
-- it in one of them.
has_in-rounds :
    (clean_time : ℤ) (d x : Bytes) (answers : List Answers) (s : State)
    → (has_in x (find d (rounds clean_time answers s).backup_dirs) ≡ true)
      ↔ (Registered d x answers ⊎ (has_in x (find d s.backup_dirs) ≡ true))
unfolding rounds
has_in-rounds clean_time d x [] s =
    (λ h. inr h, λ h. elim h [ inl never ↦ absurd never | inr h ↦ h ])
has_in-rounds clean_time d x (a ∷ answers) s =
    let (there, back) = has_in-rounds clean_time d x answers (round clean_time a s) in
    let (came, goes) = register_lem d x a.registers s.backup_dirs in
    let e = ap (λ (m : Map (List Bytes)). has_in x (find d m)) (round-register clean_time a s) in
    (
      λ h. elim (there h) [
        | inl r ↦ inl (inr r)
        | inr b ↦ elim (came (sym e ∙ b)) [ inl now ↦ inl (inl now) | inr old ↦ inr old ]
      ],
      λ h. elim h [
        | inl (inl now) ↦ back (inr (e ∙ goes (inl now)))
        | inl (inr r) ↦ back (inl r)
        | inr old ↦ back (inr (e ∙ goes (inr old)))
      ],
    )

-- The extensions behind a round, after others, from none.
pub has_in-Registered :
    (clean_time : ℤ) (d x : Bytes) (a : Answers) (answers : List Answers) (s : State)
    → s.backup_dirs ≡ []
    → (has_in x (find d (register a.registers (rounds clean_time answers s).backup_dirs)) ≡ true)
      ↔ Registered d x (a ∷ answers)
unfolding find
has_in-Registered clean_time d x a answers s empty =
    let (there, back) = has_in-rounds clean_time d x answers s in
    let (came, goes) = register_lem d x a.registers (rounds clean_time answers s).backup_dirs in
    (
      λ h. elim (came h) [
        | inl now ↦ inl now
        | inr b ↦ elim (there b) [ inl r ↦ inr r | inr old ↦ absurd (nothing (rw empty at old)) ]
      ],
      λ h. elim h [ inl now ↦ goes (inl now) | inr r ↦ goes (inr (back (inl r))) ],
    )
  where
    nothing : has_in x (find d []) ≡ true → ⊥
    nothing h = cc
