-- ===== src/Nodes/Create.antt =====
-- src/flexetl/nodes.cpp: `Node::create` and `Node::makeHandler`. The settings (contrib/libconfig) are
-- what `lookupValue("handler")` and `["nodes"]` find; a leaf has no "nodes".
use flexetl.Prelude.{
  ◌≡◌, refl, ap, sym, ◌∙◌, List, [], ◌∷◌, ◌++◌, Option, none, some, if◌then◌else◌,
}
use flexetl.Prelude.Words.{Bytes}
use flexetl.StdMap.{same_key}
use flexetl.Nodes.Tree.{Node, Nodes, node, nil, cons, handlers, all_handlers}

mutual
  pub data Setting : Type 0 where
    leaf : Option Bytes → Setting
    branch : Option Bytes → Settings → Setting

  pub data Settings : Type 0 where
    no_items : Settings
    item : Setting → Settings → Settings

-- The classes of handlers.
pub data Kind : Type 0 where
  pipeline pipeset json2click click2db : Kind

-- The names "pipeline", "pipeset", "json2click" and "click2db".
abbrev pub name_of : Kind → Bytes
name_of pipeline = 112 ∷ 105 ∷ 112 ∷ 101 ∷ 108 ∷ 105 ∷ 110 ∷ 101 ∷ []
name_of pipeset = 112 ∷ 105 ∷ 112 ∷ 101 ∷ 115 ∷ 101 ∷ 116 ∷ []
name_of json2click = 106 ∷ 115 ∷ 111 ∷ 110 ∷ 50 ∷ 99 ∷ 108 ∷ 105 ∷ 99 ∷ 107 ∷ []
name_of click2db = 99 ∷ 108 ∷ 105 ∷ 99 ∷ 107 ∷ 50 ∷ 100 ∷ 98 ∷ []

unfoldable pub make_handler : Bytes → Option Kind
make_handler name =
    if same_key name (name_of pipeline)
    then some pipeline
    else if same_key name (name_of pipeset)
    then some pipeset
    else if same_key name (name_of json2click)
    then some json2click
    else if same_key name (name_of click2db)
    then some click2db
    else none

abbrev with_nodes : Option Kind → Option (Nodes Kind) → Option (Node Kind)
with_nodes h none = none
with_nodes h (some ns) = some (node h ns)

abbrev both : Option (Node Kind) → Option (Nodes Kind) → Option (Nodes Kind)
both none ns = none
both (some n) none = none
both (some n) (some ns) = some (cons n ns)

abbrev and_nodes : Option Kind → Option (Nodes Kind) → Option (Node Kind)
and_nodes none ns = none
and_nodes (some h) ns = with_nodes (some h) ns

-- `create`: `none` where it returns false.
unfoldable mutual
  pub create : Setting → Option (Node Kind)
  create (leaf none) = some (node none nil)
  create (branch none nodes) = with_nodes none (create_all nodes)
  create (leaf (some name)) = and_nodes (make_handler name) (some nil)
  create (branch (some name) nodes) = and_nodes (make_handler name) (create_all nodes)

  pub create_all : Settings → Option (Nodes Kind)
  create_all no_items = some nil
  create_all (item s ss) = both (create s) (create_all ss)

-- The handlers' names in the settings, each before those below it.
unfoldable mutual
  pub names : Setting → List Bytes
  names (leaf none) = []
  names (branch none nodes) = all_names nodes
  names (leaf (some name)) = name ∷ []
  names (branch (some name) nodes) = name ∷ all_names nodes

  pub all_names : Settings → List Bytes
  all_names no_items = []
  all_names (item s ss) = names s ++ all_names ss

abbrev prepend : Option Kind → Option (List Kind) → Option (List Kind)
prepend none hs = none
prepend (some h) none = none
prepend (some h) (some hs) = some (h ∷ hs)

-- The kinds that some names stand for, if each is one.
unfoldable pub kinds : List Bytes → Option (List Kind)
kinds [] = some []
kinds (name ∷ ns) = let rest = kinds ns in prepend (make_handler name) rest

abbrev join : Option (List Kind) → Option (List Kind) → Option (List Kind)
join none ks = none
join (some hs) none = none
join (some hs) (some ks) = some (hs ++ ks)

prepend-join :
    (o : Option Kind) (r q : Option (List Kind)) → prepend o (join r q) ≡ join (prepend o r) q
prepend-join none r q = refl
prepend-join (some h) none q = refl
prepend-join (some h) (some hs) none = refl
prepend-join (some h) (some hs) (some ks) = refl

join_nil : (o : Option (List Kind)) → join (some []) o ≡ o
join_nil none = refl
join_nil (some ks) = refl

kinds-append : (xs ys : List Bytes) → kinds (xs ++ ys) ≡ join (kinds xs) (kinds ys)
unfolding kinds
kinds-append [] ys = sym (join_nil (kinds ys))
kinds-append (x ∷ xs) ys =
    ap (prepend (make_handler x)) (kinds-append xs ys)
    ∙ prepend-join (make_handler x) (kinds xs) (kinds ys)

-- The kinds of the handlers of a node, and of nodes, that were made.
abbrev pub made : Option (Node Kind) → Option (List Kind)
made none = none
made (some n) = some (handlers n)

abbrev made_all : Option (Nodes Kind) → Option (List Kind)
made_all none = none
made_all (some ns) = some (all_handlers ns)

with_none : (ns : Option (Nodes Kind)) → made (with_nodes none ns) ≡ made_all ns
unfolding handlers
with_none none = refl
with_none (some ns) = refl

made-and_nodes :
    (h : Option Kind) (ns : Option (Nodes Kind)) → made (and_nodes h ns) ≡ prepend h (made_all ns)
unfolding handlers
made-and_nodes none ns = refl
made-and_nodes (some h) none = refl
made-and_nodes (some h) (some ns) = refl

made_all-both :
    (n : Option (Node Kind)) (ns : Option (Nodes Kind))
    → made_all (both n ns) ≡ join (made n) (made_all ns)
unfolding handlers
made_all-both none ns = refl
made_all-both (some n) none = refl
made_all-both (some n) (some ns) = refl

mutual
  unfolding create names kinds handlers

  made-create : (s : Setting) → made (create s) ≡ kinds (names s)
  made-create (leaf none) = refl
  made-create (branch none nodes) = with_none (create_all nodes) ∙ made_all-create_all nodes
  made-create (leaf (some name)) = made-and_nodes (make_handler name) (some nil)
  made-create (branch (some name) nodes) =
      made-and_nodes (make_handler name) (create_all nodes)
      ∙ ap (prepend (make_handler name)) (made_all-create_all nodes)

  made_all-create_all : (ss : Settings) → made_all (create_all ss) ≡ kinds (all_names ss)
  made_all-create_all no_items = refl
  made_all-create_all (item s ss) =
      made_all-both (create s) (create_all ss)
      ∙ ap (λ r. join r (made_all (create_all ss))) (made-create s)
      ∙ ap (join (kinds (names s))) (made_all-create_all ss)
      ∙ sym (kinds-append (names s) (all_names ss))

-- `create` returns false if and only if some name of a handler in the settings is not one of the
-- four; otherwise the tree has, in the order of the settings, a handler of the named class for each
-- name, and no others.
pub create-kinds : (s : Setting) → made (create s) ≡ kinds (names s)
create-kinds s = made-create s
