-- ===== src/FlexEtl/Init/Starts.antt =====
-- What `FlexEtl::init` does.
use flexetl.Prelude.{
  ◌≡◌, refl, ap, ◌∙◌, Bool, false, List, [], Option, none, some, inl, inr, Option-cases, ℕ,
}
use flexetl.Prelude.Words.{Bytes}
use flexetl.ClickTbl.Load.{c_string}
use flexetl.ClickTbl.Getters.Scan.{scan_long, scan_sign, skip_spaces, read_signed, scan_number}
use flexetl.FlexEtl.Expand.{Settings}
use flexetl.FlexEtl.Expand.Replace.{replace}
use flexetl.FlexEtl.Expand.TwoPasses.{expand_variables-replace}
use flexetl.FlexEtl.Init.{
  Config, metrics_host, stoi, port_text, start_nodes, init_application, init,
}
use flexetl.Nodes.Create.{Kind, create, kinds, names, made, create-kinds}
use flexetl.Nodes.Tree
use flexetl.Nodes.Tree.{Node, handlers, init-run_all, run_all}

no_number : stoi [] ≡ none
unfolding stoi c_string scan_long scan_sign skip_spaces read_signed scan_number
no_number = refl

module _ {S : Type 0} (init_handler start_handler : Kind → S → S × Bool) where
  -- What the start of the handlers is to be: all are initialised, in order, and then all are
  -- started.
  unfoldable pub run_handlers : Option (List Kind) → S → S × Bool
  run_handlers none s = (s, false)
  run_handlers (some hs) s =
      Tree.and_then (run_all init_handler hs s) (λ s'. run_all start_handler hs s')

  start_nodes-run_handlers :
      (o : Option (Node Kind)) (s : S)
      → start_nodes init_handler start_handler o s ≡ run_handlers (made o) s
  unfolding start_nodes run_handlers
  start_nodes-run_handlers none s = refl
  start_nodes-run_handlers (some n) s =
      ap (λ (r : S × Bool). Tree.and_then r (λ s'. Tree.start start_handler n s'))
        (init-run_all init_handler n s).0
      ∙ Tree.and_then_ap (run_all init_handler (handlers n) s) _ _
          (λ s'. (init-run_all start_handler n s').1)

module _ {S : Type 0} (config : Config) (init_handler start_handler : Kind → S → S × Bool) where
  -- Without "metricsHost" the program does not start, whatever else is configured: the port is made
  -- empty, and `std::stoi` of it throws.
  pub init_no_host :
      (flags : Bytes → Bytes) (application : Settings) (s : S)
      → ((expanded : Settings)
          → replace flags application ≡ some expanded
          → config.lookup metrics_host expanded ≡ none)
      → init config init_handler start_handler flags (some application) s ≡ (s, false)
  unfolding init init_application port_text
  init_no_host flags application s h = elim (Option-cases (replace flags application)) [
    | inl e ↦ rw (init_application, expand_variables-replace flags application, e) refl
    | inr (expanded, e) ↦
        rw
          (
            init_application,
            expand_variables-replace flags application,
            e,
            port_text,
            h expanded e,
            no_number,
          )
          refl
  ]

  -- If a host is configured and the port is a number: the variables are replaced, the handlers that
  -- are named in the settings are made, initialised in order and then started in order, until one
  -- fails; and nothing is called if a variable has no value or a name is not one of the four.
  pub init-run_handlers :
      (flags : Bytes → Bytes) (application expanded : Settings) (port : ℕ) (s : S)
      → replace flags application ≡ some expanded
      → stoi (port_text config expanded) ≡ some port
      → init config init_handler start_handler flags (some application) s
        ≡ run_handlers init_handler start_handler (kinds (names (config.nodes_of expanded))) s
  unfolding init init_application
  init-run_handlers flags application expanded port s e number =
      rw (init_application, expand_variables-replace flags application, e, number)
        (start_nodes-run_handlers init_handler start_handler (create (config.nodes_of expanded)) s
          ∙ ap (λ (o : Option (List Kind)). run_handlers init_handler start_handler o s)
              (create-kinds (config.nodes_of expanded)))
