-- ===== src/Process/Build.antt =====
-- `ProcessManager.build` of src/rosplus/process.py.
pub mod Laws
pub mod Race
use rosplus.Base.{
  ℕ, ◌+◌, ◌-◌, String, ◌<>◌, Bool, true, false, not, List, [], ◌∷◌, ◌++◌, ◌==◌, if◌then◌else◌,
}
use rosplus.Base.Text.{decimal, join}
use rosplus.Exec.{Result, ok, raise, Act, pure, lift, gets, modify, require, proceed, ◌>>=◌, ◌>>◌}
use rosplus.Exec.Errors.{Exception, workspace_error, build_in_progress}
use rosplus.Models.{
  FilePath, Workspace, Severity, info, error_level, idle, building, failed, WorkspaceStatus, log,
}
use rosplus.Disk.{Disk}
use rosplus.Process.{Supervisor, find, update}

-- What `py_compile.compile(path, doraise=True)` does with a file.
pub data Compiled : Type 0 where
  compiled : Compiled
  py_compile_error : String → Compiled
  raised : Exception → Compiled

-- `built` and `errors` of the loop.
pub record Tally : Type 0 where
  pub built : ℕ
  pub errors : List String

pub record BuildReport : Type 0 where
  pub success : Bool
  pub log : String
  pub errors : List String
  pub warnings : List String
  pub packages_built : ℕ

abbrev is_nil {ℓ} : {A : Type ℓ} → List A → Bool
is_nil [] = true
is_nil (x ∷ xs) = false

-- `finally`: the last step is taken whatever came before.
abbrev pub finally : {S A : Type 0} → Act S A → (S → S) → Act S A
finally m last s = let (r, s') = m s in (r, last s')

abbrev tally : Compiled → Tally → Result Tally
tally compiled t = ok (record t { built = t.built + 1 })
tally (py_compile_error text) t = ok (record t { errors = t.errors ++ text ∷ [] })
tally (raised e) t = raise e

abbrev bind_result : {A B : Type 0} → Result A → (A → Result B) → Result B
bind_result (ok a) f = f a
bind_result (raise e) f = raise e

module _ (compile : FilePath → Compiled) where
  -- The loop over the files.
  unfoldable pub compile_all : List FilePath → Tally → Result Tally
  compile_all [] t = ok t
  compile_all (p ∷ ps) t = bind_result (tally (compile p) t) (compile_all ps)

abbrev pub rust_warning : String
rust_warning =
    "Rust sources detected; native compilation requires the ROSPlus Rust toolchain adapter"

-- `"\n".join(errors + warnings) or "validation complete"`
abbrev report_log : List String → String
report_log lines = let text = join "\n" lines in if text == "" then "validation complete" else text

abbrev pub report : Tally → List FilePath → BuildReport
report t rust =
    let warnings = if is_nil rust then [] else rust_warning ∷ [] in
    record {
      success = is_nil t.errors;
      log = report_log (t.errors ++ warnings);
      errors = t.errors;
      warnings = warnings;
      packages_built = t.built;
    }

-- The status and the line of the log that follow the loop.
unfoldable pub settle : String → Tally → Workspace → Workspace
settle utc t w =
    let success = is_nil t.errors in
    let verdict = if success then "passed" else "failed" in
    log utc (if success then info else error_level)
      ("build " <> (verdict <> (": " <> (decimal t.built <> " Python file(s) validated"))))
      "control-plane" (record w { status = if success then idle else failed })

abbrev pub lock : Workspace → Workspace
lock w = record w { build_lock = true; status = building }

abbrev pub unlock : Workspace → Workspace
unlock w = record w { build_lock = false }

module _ (D : Disk) (compile : FilePath → Compiled) (utc : String) where
  -- The body of `try`.
  unfoldable pub build_body : String → Workspace → Act (Supervisor D) BuildReport
  build_body ident ws = do
    d ← gets (λ s. s.manager.disk)
    sources ← lift (D.glob d ws.path ".py")
    t ← lift (compile_all compile sources (record { built = 0; errors = [] }))
    rust ← lift (D.glob d ws.path ".rs")
    modify (update D ident (settle utc t))
    pure (report t rust)

  unfoldable pub build : String → Act (Supervisor D) BuildReport
  unfolding find build_body
  build ident = do
    ws ← find D ident
    require (not ws.build_lock) (workspace_error build_in_progress)
    modify (update D ident lock)
    finally (build_body ident ws) (update D ident unlock)
