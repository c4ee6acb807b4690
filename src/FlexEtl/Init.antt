-- ===== src/FlexEtl/Init.antt =====
-- src/flexetl/flexetl.cpp: `FlexEtl::init`. The settings are those of contrib/libconfig, as far as they
-- are looked up here and in Nodes.Create.
pub mod Starts
use flexetl.Prelude.{
  ℕ, ◌-◌, ◌^◌, Bool, true, false, ◌||◌, List, [], ◌∷◌, Option, none, some, ltb, leb, if◌then◌else◌,
}
use flexetl.Prelude.Words.{Bytes}
use flexetl.ClickTbl.Load.{c_string}
use flexetl.ClickTbl.Getters.Scan.{scan_long}
use flexetl.FlexEtl.Expand.{Settings, expand_variables}
use flexetl.Nodes.Create.{Setting, Kind, create}
use flexetl.Nodes.Tree
use flexetl.Nodes.Tree.{Node}

-- What libconfig finds in the group "application": a text by its name, and the tree of nodes.
pub record Config : Type 0 where
  pub lookup : Bytes → Settings → Option Bytes
  pub nodes_of : Settings → Setting

-- "metricsPort", "metricsHost" and "2003".
abbrev pub metrics_port : Bytes
metrics_port = b'm' ∷ b'e' ∷ b't' ∷ b'r' ∷ b'i' ∷ b'c' ∷ b's' ∷ b'P' ∷ b'o' ∷ b'r' ∷ b't' ∷ []

abbrev pub metrics_host : Bytes
metrics_host = b'm' ∷ b'e' ∷ b't' ∷ b'r' ∷ b'i' ∷ b'c' ∷ b's' ∷ b'H' ∷ b'o' ∷ b's' ∷ b't' ∷ []

abbrev pub default_port : Bytes
default_port = b'2' ∷ b'0' ∷ b'0' ∷ b'3' ∷ []

-- `std::stoi`: `none` if it throws. A number is the pattern of 64 bits that `strtol` gives.
unfoldable pub stoi : Bytes → Option ℕ
stoi s = elim (scan_long (c_string s)) [
  | none ↦ none
  | some n ↦ if ltb n (2 ^ 31) || leb (2 ^ 64 - 2 ^ 31) n then some n else none
]

abbrev pub or_default : Bytes → Option Bytes → Bytes
or_default d none = d
or_default d (some s) = s

-- The text that is taken for the port: without a host, an empty one.
unfoldable pub port_text : Config → Settings → Bytes
port_text config application = elim (config.lookup metrics_host application) [
  | none ↦ []
  | some host ↦ or_default default_port (config.lookup metrics_port application)
]

module _ {S : Type 0} (init_handler start_handler : Kind → S → S × Bool) where
  -- The root node is made, initialised and started.
  unfoldable pub start_nodes : Option (Node Kind) → S → S × Bool
  start_nodes none s = (s, false)
  start_nodes (some n) s =
      Tree.and_then (Tree.init init_handler n s) (λ s'. Tree.start start_handler n s')

module _ {S : Type 0} (config : Config) (init_handler start_handler : Kind → S → S × Bool) where
  -- The `try` block behind the look-up of "application".
  unfoldable pub init_application : (Bytes → Bytes) → Settings → S → S × Bool
  init_application flags application s = elim (expand_variables flags application) [
    | none ↦ (s, false)
    | some expanded ↦ elim (stoi (port_text config expanded)) [
      | none ↦ (s, false)
      | some port ↦ start_nodes init_handler start_handler (create (config.nodes_of expanded)) s
    ]
  ]

  -- `FlexEtl::init` on what `readFile` and the look-up of "application" find, `none` if the first
  -- throws or there is none; `flags` are the values on the command line. Each exception is caught,
  -- and false returned.
  unfoldable pub init : (Bytes → Bytes) → Option Settings → S → S × Bool
  init flags none s = (s, false)
  init flags (some application) s = init_application flags application s
