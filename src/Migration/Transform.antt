-- ===== src/Migration/Transform.antt =====
-- `Transform` of src/rosplus/migration.py.
pub mod Plain
use rosplus.Base.{
  ℕ, String, ◌<>◌, Bool, true, false, not, ◌||◌, ◌&&◌, Option, none, some, List, [], ◌∷◌, ◌++◌, any,
  ◌==◌, if◌then◌else◌,
}
use rosplus.Base.Dict.{Dict, get}
use rosplus.Migration.Syntax.{
  Alias, Node, import_names, import_from, name, attribute, call, constant, negation, other, Nodes,
  nil, cons, Keywords, end, keyword, text_is, is_alias, imports_rospy,
}

-- `[n for n in names if n.name != 'rospy']`
abbrev pub other_names : List Alias → List Alias
other_names [] = []
other_names (a ∷ ns) = if is_alias a then other_names ns else a ∷ other_names ns

abbrev pub is_aliased : Alias → Bool
is_aliased a = is_alias a && (elim a.asname [ none ↦ false | some s ↦ not (s == "") ])

-- The condition's warning, if it holds.
abbrev pub warn : Bool → String → List String
warn b w = if b then w ∷ [] else []

abbrev pub kept_import : List Alias → Option Node
kept_import [] = none
kept_import (a ∷ ns) = some (import_names (a ∷ ns))

abbrev is_single : Nodes → Bool
is_single (cons n nil) = true
is_single _ = false

abbrev has_keywords : Keywords → Bool
has_keywords end = false
has_keywords (keyword _ _ _) = true

-- `any(k.arg != 'queue_size' for k in keywords)`
abbrev has_options : Keywords → Bool
has_options end = false
has_options (keyword k _ ks) = not (text_is "queue_size" k) || has_options ks

abbrev pub mapping : Dict String
mapping =
    ("init_node", "_rosplus_init")
    ∷ ("Publisher", "_rosplus_publisher")
    ∷ ("Subscriber", "_rosplus_subscriber")
    ∷ ("Rate", "_RosPlusRate")
    ∷ ("spin", "_rosplus_spin")
    ∷ []

abbrev pub levels : Dict String
levels =
    ("loginfo", "info") ∷ ("logwarn", "warning") ∷ ("logerr", "error") ∷ ("logdebug", "debug") ∷ []

-- The options of a mapped call that want a review.
abbrev reviews : String → Nodes → Keywords → List String
reviews attr args kws =
    warn (attr == "init_node" && (not (is_single args) || has_keywords kws))
      "non-default init_node options require review"
    ++ warn ((attr == "Publisher" || attr == "Subscriber") && has_options kws)
        "publisher/subscriber options require review"

-- A call `rospy.attr(args, kws)` and what is made of it.
unfoldable pub convert_call : String → Nodes → Keywords → Node × List String
unfolding get
convert_call attr args kws = elim (get attr mapping) [
  | some helper ↦ (call (name helper) args kws, reviews attr args kws)
  | none ↦
      if attr == "is_shutdown"
      then (negation (call (attribute (name "_rclpy") "ok") nil end), [])
      else elim (get attr levels) [
        | some level ↦ (call (name "_rosplus_log") (cons (constant level) args) kws, [])
        | none ↦ (
          call (attribute (name "rospy") attr) args kws,
          ("rospy." <> (attr <> " requires manual migration")) ∷ [],
        )
      ]
]

-- `visit_Call`, after the children
unfoldable pub finish_call : Node → Nodes → Keywords → Node × List String
unfolding convert_call
finish_call (attribute (name x) attr) args kws =
    if x == "rospy"
    then convert_call attr args kws
    else (call (attribute (name x) attr) args kws, [])
finish_call f args kws = (call f args kws, [])

-- `visit_Import` of a node, before what the nodes after it became
unfoldable pub visit_import : List Alias → Nodes × List String → Nodes × List String
visit_import names (ns, w) =
    let review = warn (any is_aliased names) "aliased rospy import requires review" in
    elim (kept_import (other_names names)) [
      | none ↦ (ns, review ++ w)
      | some n ↦ (cons n ns, review ++ w)
    ]

-- `visit` of a node that is no import statement, and of lists of nodes, in which an import may be
-- dropped. An import by itself stands only in a list; `visit_node` leaves it as it is.
unfoldable mutual
  pub visit_node : Node → Node × List String
  visit_node (attribute v a) = let (v', w) = visit_node v in (attribute v' a, w)
  visit_node (call f args kws) =
      let (f', wf) = visit_node f in
      let (args', wa) = visit_nodes args in
      let (kws', wk) = visit_keywords kws in
      let (n, w) = finish_call f' args' kws' in (n, wf ++ (wa ++ (wk ++ w)))
  visit_node (negation n) = let (n', w) = visit_node n in (negation n', w)
  visit_node (other label ns) = let (ns', w) = visit_nodes ns in (other label ns', w)
  visit_node (import_names names) = (import_names names, [])
  visit_node (import_from m names) =
      (import_from m names, warn (text_is "rospy" m) "from rospy import requires manual migration")
  visit_node (name x) = (name x, [])
  visit_node (constant c) = (constant c, [])

  pub visit_nodes : Nodes → Nodes × List String
  visit_nodes nil = (nil, [])
  visit_nodes (cons (import_names names) ns) = visit_import names (visit_nodes ns)
  visit_nodes (cons n ns) =
      let (n', w) = visit_node n in let (ns', ws) = visit_nodes ns in (cons n' ns', w ++ ws)

  pub visit_keywords : Keywords → Keywords × List String
  visit_keywords end = (end, [])
  visit_keywords (keyword k n ks) =
      let (n', w) = visit_node n in let (ks', ws) = visit_keywords ks in (keyword k n' ks', w ++ ws)
