-- ===== src/Migration/Transform/Plain.antt =====
-- Code that does not mention `rospy` goes through `Transform` unchanged.
use rosplus.Base.{◌≡◌, refl, ◌∙◌, ◌++◌, Bool, true, false, some, List, [], ◌∷◌, any, ◌==◌, arith}
use rosplus.Migration.Syntax.{
  Alias, Node, import_names, import_from, name, attribute, call, constant, negation, other, Nodes,
  nil, cons, Keywords, end, keyword, text_is, imports_rospy, walk_any, walk_nodes, walk_keywords,
}
use rosplus.Migration.Transform.{
  other_names, kept_import, visit_import, is_aliased, finish_call, visit_node, visit_nodes,
  visit_keywords,
}

-- A node that names `rospy`: by itself, in an import, or as the module of one. An import of nothing,
-- which Python does not parse, counts too.
unfoldable pub mentions : Node → Bool
mentions (import_names []) = true
mentions (import_names (a ∷ ns)) = imports_rospy (a ∷ ns)
mentions (import_from m ns) = text_is "rospy" m
mentions (name x) = x == "rospy"
mentions _ = false

other_names-all : (ns : List Alias) → imports_rospy ns ≡ false → other_names ns ≡ ns
other_names-all [] h = refl
other_names-all (a ∷ ns) h = ground (arith, other_names-all ns)

no_aliased : (ns : List Alias) → imports_rospy ns ≡ false → any is_aliased ns ≡ false
no_aliased [] h = refl
no_aliased (a ∷ ns) h = ground (arith, no_aliased ns)

visit_import-plain :
    (names : List Alias) (ns : Nodes)
    → imports_rospy names ≡ false
    → kept_import names ≡ some (import_names names)
    → visit_import names (ns, []) ≡ (cons (import_names names) ns, [])
unfolding visit_import
visit_import-plain names ns h k = ground (arith, no_aliased names h, other_names-all names h, k)

finish_call-plain :
    (f : Node) (args : Nodes) (kws : Keywords)
    → walk_any mentions f ≡ false
    → finish_call f args kws ≡ (call f args kws, [])
unfolding finish_call walk_any mentions
finish_call-plain (attribute (name x) attr) args kws h = ground arith
finish_call-plain (import_names ns) args kws h = refl
finish_call-plain (import_from m ns) args kws h = refl
finish_call-plain (name x) args kws h = refl
finish_call-plain (call f as_ ks) args kws h = refl
finish_call-plain (constant c) args kws h = refl
finish_call-plain (negation n) args kws h = refl
finish_call-plain (other label ns) args kws h = refl
finish_call-plain (attribute (import_names ns) a) args kws h = refl
finish_call-plain (attribute (import_from m ns) a) args kws h = refl
finish_call-plain (attribute (attribute v b) a) args kws h = refl
finish_call-plain (attribute (call f as_ ks) a) args kws h = refl
finish_call-plain (attribute (constant c) a) args kws h = refl
finish_call-plain (attribute (negation n) a) args kws h = refl
finish_call-plain (attribute (other label ns) a) args kws h = refl

abbrev is_import : Node → Bool
is_import (import_names ns) = true
is_import _ = false

visit_cons :
    (n : Node) (ns : Nodes)
    → is_import n ≡ false
    → visit_nodes (cons n ns)
      ≡ (cons (visit_node n).0 (visit_nodes ns).0, (visit_node n).1 ++ (visit_nodes ns).1)
unfolding visit_node
visit_cons (import_names names) ns h = cc
visit_cons (import_from m as_) ns h = refl
visit_cons (name x) ns h = refl
visit_cons (attribute v a) ns h = refl
visit_cons (call f as_ ks) ns h = refl
visit_cons (constant c) ns h = refl
visit_cons (negation n) ns h = refl
visit_cons (other l as_) ns h = refl

visit_cons-plain :
    (n : Node) (ns : Nodes)
    → is_import n ≡ false
    → visit_node n ≡ (n, [])
    → visit_nodes ns ≡ (ns, [])
    → visit_nodes (cons n ns) ≡ (cons n ns, [])
visit_cons-plain n ns i e f = visit_cons n ns i ∙ rw (e, f) refl

mutual
  unfolding visit_node walk_any mentions

  visit_node-plain : (n : Node) → walk_any mentions n ≡ false → visit_node n ≡ (n, [])
  visit_node-plain (import_names ns) h = refl
  visit_node-plain (import_from m ns) h = ground arith
  visit_node-plain (name x) h = refl
  visit_node-plain (attribute v a) h = rw (visit_node-plain v h) refl
  visit_node-plain (call f args kws) h =
      rw
        (
          visit_node-plain f (ground arith),
          visit_nodes-plain args (ground arith),
          visit_keywords-plain kws (ground arith),
          finish_call-plain f args kws (ground arith),
        )
        refl
  visit_node-plain (constant c) h = refl
  visit_node-plain (negation n) h = rw (visit_node-plain n h) refl
  visit_node-plain (other label ns) h = rw (visit_nodes-plain ns h) refl

  visit_nodes-plain : (ns : Nodes) → walk_nodes mentions ns ≡ false → visit_nodes ns ≡ (ns, [])
  visit_nodes-plain nil h = refl
  visit_nodes-plain (cons (import_names []) ns) h = absurd (ground arith)
  visit_nodes-plain (cons (import_names (a ∷ as_)) ns) h =
      rw (visit_nodes-plain ns (ground arith), visit_import-plain (a ∷ as_) ns (ground arith) refl)
        refl
  visit_nodes-plain (cons (import_from m as_) ns) h =
      visit_cons-plain (import_from m as_) ns refl
        (visit_node-plain (import_from m as_) (ground arith)) (visit_nodes-plain ns (ground arith))
  visit_nodes-plain (cons (name x) ns) h =
      visit_cons-plain (name x) ns refl (visit_node-plain (name x) (ground arith))
        (visit_nodes-plain ns (ground arith))
  visit_nodes-plain (cons (attribute v a) ns) h =
      visit_cons-plain (attribute v a) ns refl (visit_node-plain (attribute v a) (ground arith))
        (visit_nodes-plain ns (ground arith))
  visit_nodes-plain (cons (call f as_ ks) ns) h =
      visit_cons-plain (call f as_ ks) ns refl (visit_node-plain (call f as_ ks) (ground arith))
        (visit_nodes-plain ns (ground arith))
  visit_nodes-plain (cons (constant c) ns) h =
      visit_cons-plain (constant c) ns refl (visit_node-plain (constant c) (ground arith))
        (visit_nodes-plain ns (ground arith))
  visit_nodes-plain (cons (negation n) ns) h =
      visit_cons-plain (negation n) ns refl (visit_node-plain (negation n) (ground arith))
        (visit_nodes-plain ns (ground arith))
  visit_nodes-plain (cons (other l as_) ns) h =
      visit_cons-plain (other l as_) ns refl (visit_node-plain (other l as_) (ground arith))
        (visit_nodes-plain ns (ground arith))

  visit_keywords-plain :
      (ks : Keywords) → walk_keywords mentions ks ≡ false → visit_keywords ks ≡ (ks, [])
  visit_keywords-plain end h = refl
  visit_keywords-plain (keyword k n ks) h =
      rw (visit_node-plain n (ground arith), visit_keywords-plain ks (ground arith)) refl

-- Statements in which no node names `rospy`, as a name or in an import, go through `Transform`
-- unchanged and give no warning.
pub visit_plain : (ns : Nodes) → walk_nodes mentions ns ≡ false → visit_nodes ns ≡ (ns, [])
visit_plain ns h = visit_nodes-plain ns h
