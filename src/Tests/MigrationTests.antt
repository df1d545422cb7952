-- ===== src/Tests/MigrationTests.antt =====
-- A migration of two files and a link, in memory.
use rosplus.Base.{String, ◌≡◌, refl, true, false, List, [], ◌∷◌, if◌then◌else◌, ◌==◌}
use rosplus.Paths.{path_beq, parents, member}
use rosplus.Paths.Names.{split_name}
use rosplus.Disk.{read_text}
use rosplus.Disk.Memory.{memory, normalize}
use rosplus.Workspace.{relative_to}
use rosplus.Migration.Tree.{
  MigrationResult, Converted, no_rospy, converted, Source, migrate_tree, migrate_files, count_file,
  emit,
}
use rosplus.Migration.Tree.Whole.{Migrated, migrate_tree_lem, migrate_tree_dry}
use rosplus.Migration.Syntax.{name, call, constant, Nodes, nil, cons, end, walk_nodes}
use rosplus.Migration.Transform.{visit_nodes}
use rosplus.Migration.Transform.Plain.{mentions, visit_plain}
use rosplus.Tests.Data.{tree}

-- "a.py" uses rospy, and "b.py" does not.
abbrev by_stem : String → String → Converted
by_stem content stem = if stem == "a" then converted "import rclpy\n" [] else no_rospy

abbrev files : List Source
files =
    record { path = "r" ∷ "w" ∷ "a.py" ∷ []; is_symlink = false }
    ∷ record { path = "r" ∷ "w" ∷ "b.py" ∷ []; is_symlink = false }
    ∷ record { path = "r" ∷ "w" ∷ "c.py" ∷ []; is_symlink = true }
    ∷ []

abbrev result : MigrationResult
result = record {
  files_scanned = 2;
  files_migrated = 1;
  files_manual = 1;
  warnings = "c.py: symlink skipped" ∷ [];
  outputs = "/out/a.py" ∷ [];
}

migrate_tree_lem_example :
    Migrated memory by_stem (λ r. "{}") files ("r" ∷ "w" ∷ []) ("out" ∷ []) true tree result
unfolding migrate_tree path_beq normalize member parents migrate_files read_text relative_to emit
    count_file split_name
migrate_tree_lem_example =
    migrate_tree_lem memory by_stem (λ r. "{}") files ("r" ∷ "w" ∷ []) ("out" ∷ []) true tree false
      refl

migrate_tree_dry_example :
    (migrate_tree memory by_stem (λ r. "{}") files ("r" ∷ "w" ∷ []) ("out" ∷ []) true true tree).1
    ≡ tree
migrate_tree_dry_example =
    migrate_tree_dry memory by_stem (λ r. "{}") files ("r" ∷ "w" ∷ []) ("out" ∷ []) true tree

-- `print("hello")`
abbrev hello : Nodes
hello = cons (call (name "print") (cons (constant "hello") nil) end) nil

visit_plain_example : visit_nodes hello ≡ (hello, [])
unfolding walk_nodes mentions
visit_plain_example = visit_plain hello refl
