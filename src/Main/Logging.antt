-- ===== src/Main/Logging.antt =====
-- src/stem/spdlog_init.h: `spdlogInit`. The levels of contrib/spdlog are numbers, from 0 for `trace` to
-- 6 for `off`; the names of the levels and whether a file can be opened are parameters.
use flexetl.Prelude.{
  ℕ, ◌<◌, ◌≡◌, ◌⊎◌, inl, inr, refl, Bool, true, List, [], ◌∷◌, ◌++◌, Option, none, some, leb,
  if◌then◌else◌, All, Bool-cases, Option-cases, arith,
}
use flexetl.Prelude.Words.{Bytes}

abbrev pub debug : ℕ
debug = 1

abbrev pub info : ℕ
info = 2

abbrev pub err : ℕ
err = 4

-- The console, or a rotating file; each takes messages from a level on.
pub record Sink : Type 0 where
  pub file : Option Bytes
  pub level : ℕ

pub record Logger : Type 0 where
  pub name : Bytes
  pub sinks : List Sink
  pub level : ℕ
  pub flush_level : ℕ

-- `level::from_str`, `level::to_string_view`, and whether the constructor of a file sink returns.
pub record Library : Type 0 where
  pub from_str : Bytes → ℕ
  pub to_string_view : ℕ → Bytes
  pub opens : Bytes → Bool

-- `path + "/" + name + ".log"`
abbrev pub log_file : Bytes → Bytes → Bytes
log_file path name = path ++ b'/' ∷ name ++ b'.' ∷ b'l' ∷ b'o' ∷ b'g' ∷ []

module _ (library : Library) where
  -- The loop over the levels: `none` if a constructor throws.
  unfoldable pub file_sinks : Bytes → ℕ → List ℕ → Option (List Sink)
  file_sinks path default_level [] = some []
  file_sinks path default_level (level ∷ levels) =
      let rest = file_sinks path default_level levels in
      let file = log_file path (library.to_string_view level) in
      if leb default_level level
      then if library.opens file
        then elim rest [
          | none ↦ none
          | some sinks ↦ some (record { file = some file; level = level } ∷ sinks)
        ]
        else none
      else rest

  -- `spdlogInit`: `none` for the null pointer that is returned if something throws.
  unfoldable pub spdlog_init : Bytes → Bytes → Bytes → Option Logger
  spdlog_init prog_name path level =
      let default_level = library.from_str level in
      elim (file_sinks path default_level (debug ∷ info ∷ err ∷ [])) [
        | none ↦ none
        | some sinks ↦ some (record {
          name = prog_name;
          sinks = record { file = none; level = default_level } ∷ sinks;
          level = default_level;
          flush_level = info;
        })
      ]

  -- The file of a level can be opened, or the level is below the one from which files are written.
  abbrev pub Opens : Bytes → ℕ → ℕ → Type 0
  Opens path default_level level =
      (level < default_level)
      ⊎ (library.opens (log_file path (library.to_string_view level)) ≡ true)

  file_sinks-Opens :
      (path : Bytes) (d : ℕ) (levels : List ℕ) (sinks : List Sink)
      → file_sinks path d levels ≡ some sinks
      → All (Opens path d) levels
  unfolding file_sinks
  file_sinks-Opens path d [] sinks h = tt
  file_sinks-Opens path d (level ∷ levels) sinks h =
      let opened = library.opens (log_file path (library.to_string_view level)) in
      elim (Bool-cases (leb d level)) [
        | inr e ↦ (inl (ground arith), file_sinks-Opens path d levels sinks (rw e at h))
        | inl e ↦ elim (Bool-cases opened) [
          | inr o ↦ absurd (cc (rw (e, o) at h))
          | inl o ↦ elim (Option-cases (file_sinks path d levels)) [
            | inl n ↦ absurd (cc (rw (e, o, n) at h))
            | inr (rest, r) ↦ (inr o, file_sinks-Opens path d levels rest r)
          ]
        ]
      ]

  Opens-file_sinks :
      (path : Bytes) (d : ℕ) (levels : List ℕ)
      → All (Opens path d) levels
      → (sinks : List Sink) × (file_sinks path d levels ≡ some sinks)
  unfolding file_sinks
  Opens-file_sinks path d [] h = ([], refl)
  Opens-file_sinks path d (level ∷ levels) (here, there) =
      let (rest, r) = Opens-file_sinks path d levels there in
      elim (Bool-cases (leb d level)) [
        | inr e ↦ (rest, rw (file_sinks, e) r)
        | inl e ↦ elim here [
          | inl low ↦ absurd (ground arith)
          | inr o ↦ (
            record { file = some (log_file path (library.to_string_view level)); level = level }
                ∷ rest,
            rw (file_sinks, e, o, r) refl,
          )
        ]
      ]

  -- The files that a logger needs.
  abbrev pub HasFiles : Bytes → Bytes → Type 0
  HasFiles path level = All (Opens path (library.from_str level)) (debug ∷ info ∷ err ∷ [])

  pub spdlog_init-HasFiles :
      (prog_name path level : Bytes) (logger : Logger)
      → spdlog_init prog_name path level ≡ some logger
      → HasFiles path level
  unfolding spdlog_init
  spdlog_init-HasFiles prog_name path level logger h =
      elim (Option-cases (file_sinks path (library.from_str level) (debug ∷ info ∷ err ∷ []))) [
        | inl e ↦ absurd (cc (rw (spdlog_init, e) at h))
        | inr (sinks, e) ↦
            file_sinks-Opens path (library.from_str level) (debug ∷ info ∷ err ∷ []) sinks e
      ]

  pub HasFiles-spdlog_init :
      (prog_name path level : Bytes)
      → HasFiles path level
      → (logger : Logger) × (spdlog_init prog_name path level ≡ some logger)
  unfolding spdlog_init
  HasFiles-spdlog_init prog_name path level h =
      let d = library.from_str level in
      let (sinks, e) = Opens-file_sinks path d (debug ∷ info ∷ err ∷ []) h in
      (
        record {
          name = prog_name;
          sinks = record { file = none; level = d } ∷ sinks;
          level = d;
          flush_level = info;
        },
        rw (spdlog_init, e) refl,
      )
