-- ===== src/Scripts/Reports.antt =====
-- What scripts/compare_migration_validation.py and scripts/compare_migration_compatibility.py share:
-- the files that they read and write, the loop over the scenarios, and the end.
pub mod Verdicts
pub mod Validation
pub mod Compatibility
use rosplus.Base.{ℕ, String, ◌<>◌, Bool, true, false, ◌&&◌, List, [], ◌∷◌, ◌++◌, if◌then◌else◌}
use rosplus.Exec.{Result, ok, raise, Act, proceed}
use rosplus.Exec.Fallible.{◌>>=◌}
use rosplus.Json.{Json, str, arr, obj, field, end, bool, array}
use rosplus.Models.{FilePath}

-- The files: reading and decoding one, its hash, and writing a report.
pub record Shelf : Type 1 where
  pub State : Type 0
  -- `json.loads(path.read_text())`
  pub load : FilePath → State → Result Json
  -- `hashlib.sha256(path.read_bytes()).hexdigest()`
  pub digest : FilePath → State → Result String
  -- `path.write_text(json.dumps(report, indent=2) + "\n")`
  pub save : FilePath → Json → State → Result (Unit {0}) × State

-- Whether a scenario has passed, and its entry in the report.
abbrev pub Verdict : Type 0
Verdict = Bool × Json

-- The loop over the names: `passed = passed and matches`, and `scenarios.append(…)`.
unfoldable pub compare_each :
    (String → Result Verdict) → List String → Bool → Result (Bool × List Json)
compare_each scenario [] passed = ok (passed, [])
compare_each scenario (name ∷ names) passed = do
  (matches, entry) ← scenario name
  (passed', entries) ← compare_each scenario names (passed && matches)
  ok (passed', entry ∷ entries)

abbrev pub exact : String
exact = "exact behavior equality"

abbrev pub texts : List String → Json
texts ss = arr (array str ss)

module _ (S : Shelf) where
  -- The observations of a scenario on one side.
  abbrev pub observed : FilePath → String → String → S.State → Result Json
  observed results name side s = S.load (results ++ (name <> (side <> ".json")) ∷ []) s

  -- The report is written; the exit code is 1 if not all has passed.
  unfoldable pub finish : FilePath → Result Verdict → Act S.State ℕ
  finish output (raise e) s = (raise e, s)
  finish output (ok (passed, report)) s =
      proceed (S.save output report s) (λ _ t. (ok (if passed then 0 else 1), t))
