-- ===== src/Migration/Tree.antt =====
-- `MigrationResult` and `migrate_tree` of src/rosplus/migration.py, and the exit code of the
-- `migrate` command of src/rosplus/cli.py. Parsing and unparsing are `ast`'s: what they give for a
-- file is an argument. Files come in the order that `sorted` gives them.
pub mod Laws
pub mod Whole
use rosplus.Base.{
  ℕ, ◌+◌, String, ◌<>◌, Bool, true, false, not, ◌&&◌, ◌||◌, List, [], ◌∷◌, ◌++◌, map, Option, none,
  some, ◌==◌, nat_beq, if◌then◌else◌,
}
use rosplus.Base.Text.{join}
use rosplus.Exec.{
  Result, ok, raise, Act, pure, throw, lift, gets, modify, require, proceed, ◌>>=◌, ◌>>◌,
}
use rosplus.Exec.Errors.{Exception, value_error}
use rosplus.Models.{FilePath, path_text}
use rosplus.Paths.{child, path_beq, parents, member, parent, name}
use rosplus.Paths.Names.{split_name}
use rosplus.Disk.{Disk, read_text}
use rosplus.Workspace.{relative_to}

pub record MigrationResult : Type 0 where
  pub files_scanned : ℕ
  pub files_migrated : ℕ
  pub files_manual : ℕ
  pub warnings : List String
  pub outputs : List String

abbrev pub empty_result : MigrationResult
empty_result = record {
  files_scanned = 0;
  files_migrated = 0;
  files_manual = 0;
  warnings = [];
  outputs = [];
}

-- `status`
unfoldable pub status : MigrationResult → String
status r = if nat_beq r.files_manual 0 then "unvalidated" else "partial"

-- What `ast.parse`, the test for an import of `rospy`, and `migrate_python` make of a text.
pub data Converted : Type 0 where
  syntax_error : String → Converted
  no_rospy : Converted
  converted : String → List String → Converted

-- A file that `rglob` found.
pub record Source : Type 0 where
  pub path : FilePath
  pub is_symlink : Bool

abbrev pub scaffold : String
scaffold =
    "import unittest\n\nclass MigrationValidation(unittest.TestCase):\n    def test_behavioral_equivalence(self):\n        self.fail(\"ROS 1 / ROS 2 bag equivalence validation has not been implemented for this node\")\n"

-- `f'{prefix}: {text}'`
abbrev noted : String → String → String
noted prefix detail = prefix <> (": " <> detail)

-- The counts after a file, and what is to be written for it.
pub record Round : Type 0 where
  pub result : MigrationResult
  pub output : Option (FilePath × String)

-- The body of the loop but for the writes, on the text of a file that is no link.
unfoldable pub count_file : FilePath → FilePath → String → Converted → MigrationResult → Round
unfolding name path_text
count_file output relative file_name (syntax_error detail) r = record {
  result = record r {
    files_scanned = r.files_scanned + 1;
    files_manual = r.files_manual + 1;
    warnings = r.warnings ++ noted file_name detail ∷ [];
  };
  output = none;
}
count_file output relative file_name no_rospy r = record {
  result = record r { files_scanned = r.files_scanned + 1 };
  output = none;
}
count_file output relative file_name (converted migrated []) r = record {
  result = record r {
    files_scanned = r.files_scanned + 1;
    files_migrated = r.files_migrated + 1;
    outputs = r.outputs ++ path_text (output ++ relative) ∷ [];
  };
  output = some (output ++ relative, migrated);
}
count_file output relative file_name (converted migrated (w ∷ ws)) r = record {
  result = record r {
    files_scanned = r.files_scanned + 1;
    files_manual = r.files_manual + 1;
    warnings = r.warnings ++ map (noted (join "/" relative)) (w ∷ ws);
    outputs = r.outputs ++ path_text (output ++ relative) ∷ [];
  };
  output = some (output ++ relative, migrated);
}

abbrev count_link : String → MigrationResult → MigrationResult
count_link file_name r = record r {
  files_manual = r.files_manual + 1;
  warnings = r.warnings ++ noted file_name "symlink skipped" ∷ [];
}

module _ (D : Disk) (convert : String → String → Converted) (source output : FilePath) where
  abbrev on_disk : (D.State → Result (Unit {0}) × D.State) → Act D.State (Unit {0})
  on_disk f d = f d

  -- `str(relative.with_suffix('')).replace('/', '_')`
  abbrev test_name : FilePath → String
  test_name relative =
      "test_"
      <> (join "_" (parent relative ++ (split_name (name relative)).stem ∷ []) <> "_migration.py")

  -- The writes for a file.
  unfoldable pub emit : Bool → Bool → FilePath → Option (FilePath × String) → Act D.State (Unit {0})
  emit generate_tests dry_run relative none = pure tt
  emit generate_tests true relative (some (target, migrated)) = pure tt
  emit false false relative (some (target, migrated)) = do
    on_disk (D.make_dirs (parent target))
    on_disk (D.write_text target migrated)
  emit true false relative (some (target, migrated)) = do
    on_disk (D.make_dirs (parent target))
    on_disk (D.write_text target migrated)
    let test = output ++ "tests" ∷ test_name relative ∷ []
    on_disk (D.make_dirs (parent test))
    on_disk (D.write_text test scaffold)

  -- The loop over the files.
  unfoldable pub migrate_files :
      Bool → Bool → List Source → MigrationResult → Act D.State MigrationResult
  migrate_files generate_tests dry_run [] r d = (ok r, d)
  migrate_files generate_tests dry_run (file ∷ files) r d =
      let file_name = name file.path in
      let skip = migrate_files generate_tests dry_run files (count_link file_name r) in
      let take = do
        content ← (λ e. (read_text D e file.path, e))
        relative ← lift (relative_to source file.path)
        let round =
            count_file output relative file_name (convert content (split_name file_name).stem) r
        emit generate_tests dry_run relative round.output
        migrate_files generate_tests dry_run files round.result
      in if file.is_symlink then skip d else take d

-- The tests before the loop, on resolved paths.
abbrev overlaps : FilePath → FilePath → Bool
overlaps source output = path_beq output source || member source (parents output)

module _ (D : Disk) (convert : String → String → Converted) (dumps : MigrationResult → String) where
  -- `output.exists() and any(output.iterdir())`
  unfoldable pub occupied : D.State → FilePath → Result Bool
  occupied d output =
      if D.exists d output
      then elim (D.names d output) [ ok [] ↦ ok false | ok (n ∷ ns) ↦ ok true | raise e ↦ raise e ]
      else ok false

  -- The report that ends a run which is not dry.
  abbrev write_report : Bool → FilePath → MigrationResult → Act D.State (Unit {0})
  write_report true output r = pure tt
  write_report false output r = do
    (λ d. D.make_dirs output d)
    (λ d. D.write_text (child output "migration_result.json") (dumps r) d)

  -- `migrate_tree`; `files` are the Python files below the source
  unfoldable pub migrate_tree :
      List Source → FilePath → FilePath → Bool → Bool → Act D.State MigrationResult
  unfolding occupied
  migrate_tree files source_arg output_arg generate_tests dry_run = do
    source ← (λ d. (D.resolve d source_arg, d))
    output ← (λ d. (D.resolve d output_arg, d))
    found ← gets (λ d. D.is_dir d source)
    require found (value_error "source directory does not exist")
    require (not (overlaps source output)) (value_error "output must be outside source tree")
    full ← (λ d. (occupied d output, d))
    require (not full) (value_error "output directory must be empty")
    r ← migrate_files D convert source output generate_tests dry_run files empty_result
    write_report dry_run output r
    pure r

-- The exit code of `main` for the command `migrate`.
unfoldable pub migrate_exit : MigrationResult → ℕ
unfolding status
migrate_exit r = if status r == "success" then 0 else 2
