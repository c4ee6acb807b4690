-- ===== src/Nodes/Tree.antt =====
-- src/flexetl/nodes.cpp: `Node::init` and `Node::start` on the tree of nodes.
use flexetl.Prelude.{
  ◌≡◌, refl, ap, sym, ◌∙◌, Bool, true, false, List, [], ◌∷◌, ◌++◌, Option, none, some,
}

-- A node with its handler, if it has one, and its subnodes.
mutual
  pub data Node (H : Type 0) : Type 0 where
    node : Option H → Nodes H → Node H

  pub data Nodes (H : Type 0) : Type 0 where
    nil : Nodes H
    cons : Node H → Nodes H → Nodes H

-- The handlers, each before those below it.
unfoldable mutual
  pub handlers : {H : Type 0} → Node H → List H
  handlers (node none ns) = all_handlers ns
  handlers (node (some h) ns) = h ∷ all_handlers ns

  pub all_handlers : {H : Type 0} → Nodes H → List H
  all_handlers nil = []
  all_handlers (cons n ns) = handlers n ++ all_handlers ns

-- A call that may fail, and then another, unless it did.
abbrev pub and_then : {S : Type 0} → S × Bool → (S → S × Bool) → S × Bool
and_then (s, true) next = next s
and_then (s, false) next = (s, false)

and_then_assoc :
    {S : Type 0} (r : S × Bool) (f g : S → S × Bool)
    → and_then (and_then r f) g ≡ and_then r (λ s. and_then (f s) g)
and_then_assoc (s, true) f g = refl
and_then_assoc (s, false) f g = refl

pub and_then_ap :
    {S : Type 0} (r : S × Bool) (f g : S → S × Bool)
    → ((s : S) → f s ≡ g s)
    → and_then r f ≡ and_then r g
and_then_ap (s, true) f g h = h s
and_then_ap (s, false) f g h = refl

module _ {H : Type 0} {S : Type 0} where
  -- The handler's call, and then the subnodes, until one returns false.
  unfoldable mutual
    pub visit : (H → S → S × Bool) → Node H → S → S × Bool
    visit call (node none ns) s = visit_all call ns s
    visit call (node (some h) ns) s = and_then (call h s) (visit_all call ns)

    pub visit_all : (H → S → S × Bool) → Nodes H → S → S × Bool
    visit_all call nil s = (s, true)
    visit_all call (cons n ns) s = and_then (visit call n s) (visit_all call ns)

  -- `Node::init` and `Node::start`: `call` is that of the handler's `init` or `start`.
  abbrev pub init : (H → S → S × Bool) → Node H → S → S × Bool
  init call n s = visit call n s

  abbrev pub start : (H → S → S × Bool) → Node H → S → S × Bool
  start call n s = visit call n s

  -- One call after the other, until one returns false.
  unfoldable pub run_all : (H → S → S × Bool) → List H → S → S × Bool
  run_all call [] s = (s, true)
  run_all call (h ∷ hs) s = and_then (call h s) (run_all call hs)

  run_all-append :
      (call : H → S → S × Bool) (hs ks : List H) (s : S)
      → run_all call (hs ++ ks) s ≡ and_then (run_all call hs s) (run_all call ks)
  unfolding run_all
  run_all-append call [] ks s = refl
  run_all-append call (h ∷ hs) ks s =
      and_then_ap (call h s) _ _ (run_all-append call hs ks)
      ∙ sym (and_then_assoc (call h s) (run_all call hs) (run_all call ks))

  mutual
    unfolding visit handlers run_all

    visit_in_order :
        (call : H → S → S × Bool) (n : Node H) (s : S)
        → visit call n s ≡ run_all call (handlers n) s
    visit_in_order call (node none ns) s = visit_all_in_order call ns s
    visit_in_order call (node (some h) ns) s =
        and_then_ap (call h s) _ _ (visit_all_in_order call ns)

    visit_all_in_order :
        (call : H → S → S × Bool) (ns : Nodes H) (s : S)
        → visit_all call ns s ≡ run_all call (all_handlers ns) s
    visit_all_in_order call nil s = refl
    visit_all_in_order call (cons n ns) s =
        ap (λ r. and_then r (visit_all call ns)) (visit_in_order call n s)
        ∙ and_then_ap (run_all call (handlers n) s) _ _ (visit_all_in_order call ns)
        ∙ sym (run_all-append call (handlers n) (all_handlers ns) s)

  -- `init` and `start` of a node, whatever the handlers do: the calls are made for the handlers of
  -- the tree one after the other, each handler before those below it, until one returns false, and
  -- the result is true if none does.
  pub init-run_all :
      (call : H → S → S × Bool) (n : Node H) (s : S)
      → (init call n s ≡ run_all call (handlers n) s)
        × (start call n s ≡ run_all call (handlers n) s)
  init-run_all call n s = (visit_in_order call n s, visit_in_order call n s)
