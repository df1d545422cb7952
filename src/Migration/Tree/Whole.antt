-- ===== src/Migration/Tree/Whole.antt =====
-- `migrate_tree` of src/rosplus/migration.py as a whole: its tests, its counters and its dry run.
use rosplus.Base.{
  ◌+◌, ◌≤◌, String, ◌≡◌, refl, Bool, true, false, List, [], ◌∷◌, arith, length, inl, inr,
  Bool-cases, Option, none, some,
}
use rosplus.Exec.{ok, Result-cases}
use rosplus.Models.{FilePath}
use rosplus.Paths.{name}
use rosplus.Paths.Names.{split_name}
use rosplus.Disk.{Disk, read_text}
use rosplus.Workspace.{relative_to}
use rosplus.Workspace.Boundary.{Inside, Inside-member}
use rosplus.Migration.Tree.{
  MigrationResult, Converted, Source, count_file, count_link, emit, migrate_files, migrate_tree,
  overlaps, occupied, empty_result,
}
use rosplus.Migration.Tree.Laws.{links, migrate_files-Accounts}

Inside-overlaps : (base path : FilePath) → Inside base path → overlaps base path ≡ true
Inside-overlaps base path i = rw i.split (ground (arith, Inside-member base i.rest))

module _ (D : Disk) (convert : String → String → Converted) where
  -- A dry run writes nothing for a file.
  emit_dry :
      (source output : FilePath) (tests : Bool) (relative : FilePath)
      (o : Option (FilePath × String)) (d : D.State)
      → emit D convert source output tests true relative o d ≡ (ok tt, d)
  unfolding emit
  emit_dry source output tests relative none d = refl
  emit_dry source output tests relative (some (target, migrated)) d = refl

  migrate_files_dry :
      (source output : FilePath) (tests : Bool) (files : List Source) (r : MigrationResult)
      (d : D.State)
      → (migrate_files D convert source output tests true files r d).1 ≡ d
  unfolding migrate_files
  migrate_files_dry source output tests [] r d = refl
  migrate_files_dry source output tests (f ∷ files) r d = elim (Bool-cases f.is_symlink) [
    | inl link ↦
        rw link (migrate_files_dry source output tests files (count_link (name f.path) r) d)
    | inr plain ↦ elim (Result-cases (read_text D d f.path)) [
      | inr (e, g) ↦ rw (plain, g)
      | inl (content, g) ↦ elim (Result-cases (relative_to source f.path)) [
        | inr (e, k) ↦ rw (plain, g, k)
        | inl (relative, k) ↦
            let n = name f.path in
            let round = count_file output relative n (convert content (split_name n).stem) r in
            rw (plain, g, k, emit_dry source output tests relative round.output d)
              (migrate_files_dry source output tests files round.result d)
      ]
    ]
  ]

  module _ (dumps : MigrationResult → String) (files : List Source)
      (source_arg output_arg : FilePath) (tests : Bool) (d : D.State) where
    -- A dry run leaves the file system as it was, however it ends.
    pub migrate_tree_dry :
        (migrate_tree D convert dumps files source_arg output_arg tests true d).1 ≡ d
    unfolding migrate_tree
    migrate_tree_dry = elim (Result-cases (D.resolve d source_arg)) [
      | inr (e, h) ↦ rw h
      | inl (source, h) ↦ elim (Result-cases (D.resolve d output_arg)) [
        | inr (e, k) ↦ rw (h, k)
        | inl (output, k) ↦
            ground (arith, migrate_files_dry source output tests files empty_result d)
      ]
    ]

    -- The tests that a run which returned has passed, and the loop that made its result.
    migrate_tree-passed :
        (dry : Bool) {r : MigrationResult}
        → (migrate_tree D convert dumps files source_arg output_arg tests dry d).0 ≡ ok r
        → (source : FilePath) × (output : FilePath) × (D.resolve d source_arg ≡ ok source)
          × (D.resolve d output_arg ≡ ok output)
          × (D.is_dir d source ≡ true)
          × (overlaps source output ≡ false)
          × (occupied D convert dumps d output ≡ ok false)
          × ((migrate_files D convert source output tests dry files empty_result d).0 ≡ ok r)
    unfolding migrate_tree
    migrate_tree-passed dry {r} h = elim (Result-cases (D.resolve d source_arg)) [
      | inr (e, g) ↦ absurd (ground arith)
      | inl (source, g) ↦ elim (Result-cases (D.resolve d output_arg)) [
        | inr (e, k) ↦ absurd (ground arith)
        | inl (output, k) ↦
            (source, output, g, k, ground arith, ground arith, ground arith, ground arith)
      ]
    ]

    -- What holds of a run that returned `r`.
    abbrev pub Migrated : MigrationResult → Type 0
    Migrated r =
        (source : FilePath) × (output : FilePath) × (D.resolve d source_arg ≡ ok source)
        × (D.resolve d output_arg ≡ ok output)
        × (D.is_dir d source ≡ true)
        × ¬ (Inside source output)
        × (occupied D convert dumps d output ≡ ok false)
        × (r.files_scanned + links files ≡ length files)
        × (r.files_migrated + r.files_manual ≤ length files)
        × (links files ≤ r.files_manual)
        × (r.files_migrated ≤ length r.outputs)

    -- A run that returned had a directory as its source and an output outside that directory, which
    -- was empty or missing. Every file but the symbolic links was scanned, the files migrated
    -- and those left for hand work are together at most the files, every link is left for hand
    -- work, and every migrated file has an output.
    pub migrate_tree_lem :
        (dry : Bool) {r : MigrationResult}
        → (migrate_tree D convert dumps files source_arg output_arg tests dry d).0 ≡ ok r
        → Migrated r
    migrate_tree_lem dry {r} h =
        let (source, output, g, k, is_dir, outside, free, loop) = migrate_tree-passed dry h in
        let c =
          migrate_files-Accounts D convert source output tests dry files empty_result d loop in
        (
          source,
          output,
          g,
          k,
          is_dir,
          λ i. absurd (ground (arith, Inside-overlaps source output i)),
          free,
          omega (arith, c.every_file),
          omega (arith, c.once),
          omega (arith, c.links_manual),
          omega (arith, c.listed),
        )
