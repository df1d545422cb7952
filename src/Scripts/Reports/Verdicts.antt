-- ===== src/Scripts/Reports/Verdicts.antt =====
-- What the loop over the scenarios and the end come to.
use rosplus.Base.{◌≡◌, refl, ◌↔◌, String, Bool, true, false, ◌&&◌, List, [], ◌∷◌, arith}
use rosplus.Exec.{Result, ok, raise}
use rosplus.Exec.Fallible.{bind-eq-ok}
use rosplus.Json.{Json}
use rosplus.Models.{FilePath}
use rosplus.Scripts.Reports.{Shelf, Verdict, compare_each, finish}

module _ (scenario : String → Result Verdict) where
  -- The scenario is compared, and passes.
  abbrev pub Passes : String → Type 0
  Passes name = (entry : Json) × (scenario name ≡ ok (true, entry))

  abbrev pub AllPass : List String → Type 0
  AllPass [] = Unit
  AllPass (name ∷ names) = Passes name × AllPass names

  pub AllPass-compare_each :
      (names : List String) (passed : Bool) {entries : List Json}
      → compare_each scenario names passed ≡ ok (true, entries)
      → (passed ≡ true) × AllPass names
  unfolding compare_each
  AllPass-compare_each [] passed h = (ground arith, tt)
  AllPass-compare_each (name ∷ names) passed {entries} h =
      let ((matches, entry), e, h1) = bind-eq-ok (scenario name) _ h in
      let ((p, es), e2, h2) = bind-eq-ok (compare_each scenario names (passed && matches)) _ h1 in
      let good : compare_each scenario names (passed && matches) ≡ ok (true, es) = ground arith in
      let (both, rest) = AllPass-compare_each names (passed && matches) good in
      let m : matches ≡ true = ground arith in (ground arith, ((entry, ground arith), rest))

  pub compare_each-AllPass :
      (names : List String)
      → AllPass names
      → (entries : List Json) × (compare_each scenario names true ≡ ok (true, entries))
  unfolding compare_each
  compare_each-AllPass [] h = ([], refl)
  compare_each-AllPass (name ∷ names) ((entry, e), rest) =
      let (entries, ih) = compare_each-AllPass names rest in
      (entry ∷ entries, rw (compare_each, e, ih) refl)

module _ (S : Shelf)
    (saves : (path : FilePath) (j : Json) (s : S.State) → (S.save path j s).0 ≡ ok tt) where
  -- Where the report can be written, the exit code is 0 exactly if all has passed.
  pub finish_zero :
      (output : FilePath) (r : Result Verdict) (s : S.State)
      → ((finish S output r s).0 ≡ ok 0) ↔ ((report : Json) × (r ≡ ok (true, report)))
  unfolding finish
  finish_zero output (raise e) s = (λ h. absurd (ground arith), λ h. absurd (ground (arith, h.1)))
  finish_zero output (ok (true, report)) s =
      (λ h. (report, refl), λ h. rw (saves output report s) refl)
  finish_zero output (ok (false, report)) s = (
    λ h. let w = saves output report s in absurd (ground arith),
    λ h. absurd (ground (arith, h.1)),
  )
