-- ===== src/Migration/Tree/Laws.antt =====
-- What a migration of a tree guarantees.
use rosplus.Base.{
  ℕ, ◌+◌, ◌≤◌, String, ◌≡◌, Bool, false, List, [], ◌∷◌, arith, length, inl, inr, Bool-cases, ◌++◌,
  length-append, nat_beq, if◌then◌else◌,
}
use rosplus.Exec.{ok, Result-cases}
use rosplus.Models.{FilePath, path_text}
use rosplus.Paths.{name}
use rosplus.Paths.Names.{split_name}
use rosplus.Disk.{Disk, read_text}
use rosplus.Workspace.{relative_to}
use rosplus.Migration.Tree.{
  MigrationResult, Converted, syntax_error, no_rospy, converted, Source, count_file, count_link,
  emit, migrate_files, migrate_exit,
}

-- The command `migrate` never ends with the exit code 0: it asks for the status "success", which
-- no result has.
pub migrate_exit_two : (r : MigrationResult) → migrate_exit r ≡ 2
unfolding migrate_exit
migrate_exit_two r = elim (Bool-cases (nat_beq r.files_manual 0)) [
  | inl none_manual ↦ rw none_manual
  | inr some_manual ↦ rw some_manual
]

-- The symbolic links among the files.
abbrev pub links : List Source → ℕ
links [] = 0
links (f ∷ fs) = (if f.is_symlink then 1 else 0) + links fs

-- How the counters `r'` after `total` files, `skipped` of them links, follow from `r` before.
pub record Accounts (skipped total : ℕ) (r r' : MigrationResult) : Type 0 where
  pub every_file : r'.files_scanned + skipped ≡ r.files_scanned + total
  pub once : r'.files_migrated + r'.files_manual ≤ r.files_migrated + r.files_manual + total
  pub links_manual : r.files_manual + skipped ≤ r'.files_manual
  pub listed : r'.files_migrated + length r.outputs ≤ r.files_migrated + length r'.outputs

Accounts-count_file :
    (output relative : FilePath) (file_name : String) (c : Converted) (r : MigrationResult)
    → Accounts 0 1 r (count_file output relative file_name c r).result
unfolding count_file
Accounts-count_file output relative file_name (syntax_error detail) r = omega arith
Accounts-count_file output relative file_name no_rospy r = omega arith
Accounts-count_file output relative file_name (converted migrated []) r =
    omega (arith, length-append r.outputs (path_text (output ++ relative) ∷ []))
Accounts-count_file output relative file_name (converted migrated (w ∷ ws)) r =
    omega (arith, length-append r.outputs (path_text (output ++ relative) ∷ []))

module _ (D : Disk) (convert : String → String → Converted) (source output : FilePath) where
  -- A round on a file that is no link, whose run ended well.
  migrate_step :
      (tests dry : Bool) (f : Source) (files : List Source) (r : MigrationResult) (d : D.State)
      {r' : MigrationResult}
      → f.is_symlink ≡ false
      → (migrate_files D convert source output tests dry (f ∷ files) r d).0 ≡ ok r'
      → (r1 : MigrationResult) × (d1 : D.State) × Accounts 0 1 r r1
        × ((migrate_files D convert source output tests dry files r1 d1).0 ≡ ok r')
  unfolding migrate_files
  migrate_step tests dry f files r d plain h = elim (Result-cases (read_text D d f.path)) [
    | inr (e, g) ↦ absurd (ground arith)
    | inl (content, g) ↦ elim (Result-cases (relative_to source f.path)) [
      | inr (e, k) ↦ absurd (ground arith)
      | inl (relative, k) ↦
          let n = name f.path in
          let c = convert content (split_name n).stem in
          let round = count_file output relative n c r in
          let after = emit D convert source output tests dry relative round.output d in
          (
            round.result,
            after.1,
            Accounts-count_file output relative n c r,
            elim (Result-cases after.0) [
              | inr (e, l) ↦ absurd (ground arith)
              | inl (_, l) ↦ ground arith
            ],
          )
    ]
  ]

  pub migrate_files-Accounts :
      (tests dry : Bool) (files : List Source) (r : MigrationResult) (d : D.State)
      {r' : MigrationResult}
      → (migrate_files D convert source output tests dry files r d).0 ≡ ok r'
      → Accounts (links files) (length files) r r'
  unfolding migrate_files
  migrate_files-Accounts tests dry [] r d h = ground arith
  migrate_files-Accounts tests dry (f ∷ files) r d {r'} h = elim (Bool-cases f.is_symlink) [
    | inl link ↦
        let rest =
          migrate_files-Accounts tests dry files (count_link (name f.path) r) d {r' = r'}
            (rw link at h) in
        rw link (omega (arith, rest.every_file, rest.once, rest.links_manual, rest.listed))
    | inr plain ↦
        let (r1, d1, here, next) = migrate_step tests dry f files r d plain h in
        let rest = migrate_files-Accounts tests dry files r1 d1 next in
        rw plain (
          omega (
            arith, rest.every_file, rest.once, rest.links_manual, rest.listed, here.every_file,
            here.once, here.links_manual, here.listed,
          ))
  ]
