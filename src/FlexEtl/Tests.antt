-- ===== src/FlexEtl/Tests.antt =====
-- src/flexetl/flexetl.cpp on a small configuration.
use flexetl.Prelude.{◌≡◌, refl, Bool, true, false, List, [], ◌∷◌, none, some}
use flexetl.Prelude.Words.{Bytes}
use flexetl.ClickTbl.Load.{c_string}
use flexetl.ClickTbl.Getters.Scan.{
  is_space, skip_spaces, digit_of, scan_digits, scan_number, scan_sign, signed_64, read_signed,
  scan_long,
}
use flexetl.FlexEtl.Expand.{Settings, text, group, no_items, item, split, expand_variables}
use flexetl.FlexEtl.Expand.Replace.{replace, replace_text, fill}
use flexetl.FlexEtl.Expand.TwoPasses.{expand_variables-replace}
use flexetl.FlexEtl.Init.{Config, stoi, port_text, init}
use flexetl.FlexEtl.Init.Starts.{run_handlers, init_no_host, init-run_handlers}
use flexetl.Nodes.Create.{Kind, leaf, pipeset, kinds, names, name_of}

-- The text "/%d%/in", in a group.
abbrev application : Settings
application =
    item (group (item (text (b'/' ∷ b'%' ∷ b'd' ∷ b'%' ∷ b'/' ∷ b'i' ∷ b'n' ∷ [])) no_items))
      no_items

-- The value of "d", and of every other variable, is "a"; or none has a value.
abbrev a_for_all : Bytes → Bytes
a_for_all k = b'a' ∷ []

abbrev no_values : Bytes → Bytes
no_values k = []

abbrev expanded : Settings
expanded = item (group (item (text (b'/' ∷ b'a' ∷ b'/' ∷ b'i' ∷ b'n' ∷ [])) no_items)) no_items

replaces : replace a_for_all application ≡ some expanded
unfolding replace replace_text fill split
replaces = refl

replaces_none : replace no_values application ≡ none
unfolding replace replace_text fill split
replaces_none = refl

-- The last '%' of a text with one variable at its end is not missed.
splits_end : split (b'a' ∷ b'%' ∷ b'd' ∷ b'%' ∷ []) ≡ (b'a' ∷ []) ∷ (b'd' ∷ []) ∷ []
unfolding split
splits_end = refl

expand_variables-replace_example :
    expand_variables a_for_all application ≡ replace a_for_all application
expand_variables-replace_example = expand_variables-replace a_for_all application

-- A configuration of one set of pipes, with a host or without.
abbrev with_host : Config
with_host = record {
  lookup = λ name ss. some (b'2' ∷ b'5' ∷ []);
  nodes_of = λ ss. leaf (some (name_of pipeset));
}

abbrev without_host : Config
without_host = record { lookup = λ name ss. none; nodes_of = λ ss. leaf (some (name_of pipeset)) }

-- What was called: `true` for `init`, `false` for `start`.
abbrev Calls : Type 0
Calls = List (Bool × Kind)

abbrev on_init : Kind → Calls → Calls × Bool
on_init k calls = ((true, k) ∷ calls, true)

abbrev on_start : Kind → Calls → Calls × Bool
on_start k calls = ((false, k) ∷ calls, true)

init_no_host_example :
    init without_host on_init on_start a_for_all (some application) [] ≡ ([], false)
init_no_host_example =
    init_no_host without_host on_init on_start a_for_all application [] (λ ss e. refl)

port_25 : stoi (port_text with_host expanded) ≡ some 25
unfolding stoi port_text c_string scan_long skip_spaces is_space scan_sign read_signed scan_number
    scan_digits digit_of signed_64
port_25 = refl

init-run_handlers_example :
    init with_host on_init on_start a_for_all (some application) []
    ≡ run_handlers on_init on_start (kinds (names (leaf (some (name_of pipeset))))) []
init-run_handlers_example =
    init-run_handlers with_host on_init on_start a_for_all application expanded 25 [] replaces
      port_25
