-- ===== src/Migration/Python.antt =====
-- `migrate_python` of src/rosplus/migration.py, and what `migrate_tree` makes of a text with it. The
-- parser and the printer are `ast`'s and stand as arguments; a module is the list of its statements.
use Prim.Native.String.{compare}
use text.Mathlib.Text.{is_le}
use rosplus.Base.{
  String, ◌<>◌, Bool, false, ◌||◌, Option, none, some, List, [], ◌∷◌, ◌++◌, any, ◌==◌,
  if◌then◌else◌,
}
use rosplus.Base.Sort.{sort}
use rosplus.Base.Text.{join}
use rosplus.Paths.{split}
use rosplus.Migration.Syntax.{
  Alias, Node, import_names, import_from, name, Nodes, nil, cons, text_is, imports_rospy,
  walk_nodes,
}
use rosplus.Migration.Transform.{warn, visit_nodes}
use rosplus.Migration.Tree.{Converted, syntax_error, no_rospy, converted}

-- `HELPERS`
abbrev pub helpers : String
helpers =
    "\nimport rclpy as _rclpy\nfrom rclpy.node import Node as _Node\nimport time as _time\n_rosplus_node = None\n\ndef _rosplus_init(name, **kwargs):\n    global _rosplus_node\n    _rclpy.init()\n    _rosplus_node = _Node(name)\n\ndef _rosplus_publisher(topic, message_type, queue_size=10):\n    return _rosplus_node.create_publisher(message_type, topic, queue_size)\n\ndef _rosplus_subscriber(topic, message_type, callback, queue_size=10):\n    return _rosplus_node.create_subscription(message_type, topic, callback, queue_size)\n\nclass _RosPlusRate:\n    def __init__(self, hz):\n        if hz <= 0:\n            raise ValueError('rate must be positive')\n        self.period = 1.0 / hz\n        self.next = _time.monotonic() + self.period\n    def sleep(self):\n        while _rclpy.ok():\n            remaining = self.next - _time.monotonic()\n            if remaining <= 0:\n                break\n            _rclpy.spin_once(_rosplus_node, timeout_sec=remaining)\n        self.next += self.period\n\ndef _rosplus_spin():\n    _rclpy.spin(_rosplus_node)\n\ndef _rosplus_log(level, message, *args):\n    getattr(_rosplus_node.get_logger(), level)(str(message) % args if args else str(message))\n"

-- `sorted(set(xs))`
unfoldable pub distinct : List String → List String
distinct [] = []
distinct (x ∷ xs) = let rest = distinct xs in if any (λ y. y == x) xs then rest else x ∷ rest

abbrev pub sorted_set : List String → List String
sorted_set xs = sort (λ a b. is_le (compare a b)) (distinct xs)

unfoldable pub is_rospy : Node → Bool
is_rospy (name x) = x == "rospy"
is_rospy _ = false

abbrev first_part : String → String
first_part s = elim (split b'.' s) [ [] ↦ "" | p ∷ ps ↦ p ]

abbrev is_unsupported_module : String → Bool
is_unsupported_module s =
    let p = first_part s in p == "tf" || p == "actionlib" || p == "dynamic_reconfigure"

abbrev or_empty : Option String → String
or_empty none = ""
or_empty (some s) = s

-- An import of a module that ROS 2 does not have.
unfoldable pub is_unsupported : Node → Bool
unfolding split
is_unsupported (import_names names) = any (λ (a : Alias). is_unsupported_module a.name) names
is_unsupported (import_from m names) = is_unsupported_module (or_empty m)
is_unsupported _ = false

abbrev is_future : Node → Bool
is_future (import_from m names) = text_is "__future__" m
is_future _ = false

-- The statements that are future imports, and the others.
unfoldable pub futures : Nodes → Nodes
futures nil = nil
futures (cons n ns) = let rest = futures ns in if is_future n then cons n rest else rest

unfoldable pub others : Nodes → Nodes
others nil = nil
others (cons n ns) = let rest = others ns in if is_future n then rest else cons n rest

abbrev notes : List String → List String
notes [] = []
notes (w ∷ ws) = ("# TODO: MANUAL MIGRATION REQUIRED: " <> w) ∷ notes ws

-- The text for the tree that the transformation left.
unfoldable pub page : (Nodes → String) → Nodes → List String → String
unfolding futures others
page unparse tree warnings =
    unparse (futures tree)
    <> ("\n"
        <> (helpers
            <> ("\n" <> (join "\n" (notes warnings) <> ("\n" <> (unparse (others tree) <> "\n"))))))

-- The warnings of the transformation, and those of the walk over what it left.
abbrev pub warnings_of : Nodes → List String
warnings_of module_ =
    let (tree, w) = visit_nodes module_ in
    w
    ++ (warn (walk_nodes is_rospy tree) "unconverted rospy reference remains"
        ++ warn (walk_nodes is_unsupported tree) "unsupported ROS 1 dependency remains")

-- `migrate_python`, on the tree that its text parses to
unfoldable pub migrate_python : (Nodes → String) → Nodes → String × List String
migrate_python unparse module_ =
    let warnings = sorted_set (warnings_of module_) in
    (page unparse (visit_nodes module_).0 warnings, warnings)

-- What `ast.parse` gives.
pub data Parsed : Type 0 where
  bad_syntax : String → Parsed
  parsed : Nodes → Parsed

unfoldable pub uses_rospy : Node → Bool
uses_rospy (import_names names) = imports_rospy names
uses_rospy (import_from m names) = text_is "rospy" m
uses_rospy _ = false

-- The `try` of `migrate_tree`; the name of the node is not used.
unfoldable pub convert : (String → Parsed) → (Nodes → String) → String → String → Converted
unfolding migrate_python uses_rospy
convert parse unparse content stem = elim (parse content) [
  | bad_syntax detail ↦ syntax_error detail
  | parsed module_ ↦
      if walk_nodes uses_rospy module_
      then (let (text, warnings) = migrate_python unparse module_ in converted text warnings)
      else no_rospy
]
