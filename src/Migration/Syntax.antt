-- ===== src/Migration/Syntax.antt =====
-- What src/rosplus/migration.py uses of Python's `ast`: the nodes that it tells apart, and every
-- other node by its class, with its children in the order of `generic_visit`.
use rosplus.Base.{String, Bool, false, ◌||◌, Option, none, some, List, ◌==◌, any}

-- `ast.alias`
pub record Alias : Type 0 where
  pub name : String
  pub asname : Option String

mutual
  pub data Node : Type 0 where
    import_names : List Alias → Node
    import_from : Option String → List Alias → Node
    name : String → Node
    attribute : Node → String → Node
    call : Node → Nodes → Keywords → Node
    constant : String → Node
    negation : Node → Node
    other : String → Nodes → Node

  pub data Nodes : Type 0 where
    nil : Nodes
    cons : Node → Nodes → Nodes

  -- `ast.keyword`; `**rest` has no name
  pub data Keywords : Type 0 where
    end : Keywords
    keyword : Option String → Node → Keywords → Keywords

abbrev pub text_is : String → Option String → Bool
text_is s none = false
text_is s (some t) = t == s

abbrev pub is_alias : Alias → Bool
is_alias a = a.name == "rospy"

-- `any(a.name == "rospy" for a in names)`
abbrev pub imports_rospy : List Alias → Bool
imports_rospy names = any is_alias names

-- Whether some node among `ast.walk` passes a test.
unfoldable mutual
  pub walk_any : (Node → Bool) → Node → Bool
  walk_any p (import_names ns) = p (import_names ns)
  walk_any p (import_from m ns) = p (import_from m ns)
  walk_any p (name x) = p (name x)
  walk_any p (attribute v a) = p (attribute v a) || walk_any p v
  walk_any p (call f args kws) =
      p (call f args kws) || walk_any p f || walk_nodes p args || walk_keywords p kws
  walk_any p (constant c) = p (constant c)
  walk_any p (negation n) = p (negation n) || walk_any p n
  walk_any p (other label ns) = p (other label ns) || walk_nodes p ns

  pub walk_nodes : (Node → Bool) → Nodes → Bool
  walk_nodes p nil = false
  walk_nodes p (cons n ns) = walk_any p n || walk_nodes p ns

  pub walk_keywords : (Node → Bool) → Keywords → Bool
  walk_keywords p end = false
  walk_keywords p (keyword k n ks) = walk_any p n || walk_keywords p ks
