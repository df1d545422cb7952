-- ===== src/Scripts/Reports/Compatibility/Laws.antt =====
-- When scripts/compare_migration_compatibility.py reports success.
use rosplus.Base.{
  ◌≡◌, refl, ◌↔◌, ◌∙◌, ap, String, Bool, true, false, ◌&&◌, List, [], ◌∷◌, arith, ◌==◌,
  if◌then◌else◌,
}
use rosplus.Exec.{Result, ok}
use rosplus.Exec.Fallible.{◌>>=◌, bind-eq-ok, both_iff}
use rosplus.Json.{Json, null}
use rosplus.Json.Access.{item, get_or}
use rosplus.Json.Equal.{equal}
use rosplus.Models.{FilePath}
use rosplus.Scripts.Reports.{Shelf, Verdict, observed, compare_each}
use rosplus.Scripts.Reports.Verdicts.{
  Passes, AllPass, AllPass-compare_each, compare_each-AllPass, finish_zero,
}
use rosplus.Scripts.Reports.Compatibility.{
  Paths, names, has_feedback, actions_match, behaviors_match, Classification, classify, all_checks,
  entry, compare, report, compatibility,
}

-- The two actions gave equal sequences, and feedback.
pub record SameAction (a b : Json) : Type 0 where
  pub sequence1 : Json
  pub sequence2 : Json
  pub read1 : get_or "sequence" null a ≡ ok sequence1
  pub read2 : get_or "sequence" null b ≡ ok sequence2
  pub same : equal sequence1 sequence2 ≡ true
  pub fed1 : has_feedback a ≡ ok true
  pub fed2 : has_feedback b ≡ ok true

-- Two behaviours of a scenario agree: those of the actions by sequence and feedback, the others as
-- values.
abbrev pub Alike : Bool → Json → Json → Type 0
Alike true a b = SameAction a b
Alike false a b = equal a b ≡ true

actions-SameAction : (a b : Json) → actions_match a b ≡ ok true → SameAction a b
unfolding actions_match
actions-SameAction a b h =
    let (x, read1, h1) = bind-eq-ok (get_or "sequence" null a) _ h in
    let (y, read2, h2) = bind-eq-ok (get_or "sequence" null b) _ h1 in
    let (same, fed) = (both_iff (ok (equal x y)) _).0 h2 in
    let (fed1, fed2) = (both_iff (has_feedback a) (has_feedback b)).0 fed in
    record {
      sequence1 = x;
      sequence2 = y;
      read1 = read1;
      read2 = read2;
      same = ground arith;
      fed1 = fed1;
      fed2 = fed2;
    }

SameAction-actions : (a b : Json) → SameAction a b → actions_match a b ≡ ok true
unfolding actions_match
SameAction-actions a b s = rw (actions_match, s.read1, s.read2, s.same, s.fed1, s.fed2) refl

Alike-iff :
    (action : Bool) (a b : Json)
    → ((if action then actions_match a b else ok (equal a b)) ≡ ok true) ↔ Alike action a b
Alike-iff true a b = (actions-SameAction a b, SameAction-actions a b)
Alike-iff false a b = (λ h. ground arith, λ h. ground arith)

both_true :
    (matched sound : Bool) {r shown : Json}
    → ◌≡◌ {A = Result Verdict} (ok (matched && sound, r)) (ok (true, shown))
    → (matched ≡ true) × (sound ≡ true)
both_true matched sound h = (ground arith, ground arith)

module _ (S : Shelf) (p : Paths) (s : S.State) where
  -- The observations of the scenario are there, and their behaviours agree.
  pub record Agrees (name : String) : Type 0 where
    pub ros1 : Json
    pub ros2 : Json
    pub a : Json
    pub b : Json
    pub read1 : observed S p.results name "-ros1" s ≡ ok ros1
    pub read2 : observed S p.results name "-ros2" s ≡ ok ros2
    pub behavior1 : item "behavior" ros1 ≡ ok a
    pub behavior2 : item "behavior" ros2 ≡ ok b
    pub alike : Alike (name == "action") a b

  abbrev pub AllAgree : List String → Type 0
  AllAgree [] = Unit
  AllAgree (name ∷ ns) = Agrees name × AllAgree ns

  -- The result of the migration is there, and passes the four checks.
  pub record Classified : Type 0 where
    pub migration : Json
    pub checks : Classification
    pub read : S.load p.migration_result s ≡ ok migration
    pub classified : classify migration ≡ ok checks
    pub sound : all_checks checks ≡ true

  Agrees-compare : (name : String) → Passes (compare S p s) name → Agrees name
  unfolding compare behaviors_match
  Agrees-compare name (shown, h) =
      let (ros1, read1, h1) = bind-eq-ok (observed S p.results name "-ros1" s) _ h in
      let (ros2, read2, h2) = bind-eq-ok (observed S p.results name "-ros2" s) _ h1 in
      let (a, behavior1, h3) = bind-eq-ok (item "behavior" ros1) _ h2 in
      let (b, behavior2, h4) = bind-eq-ok (item "behavior" ros2) _ h3 in
      let (matches, matched, h5) = bind-eq-ok (behaviors_match name a b) _ h4 in
      let is : matches ≡ true = ground arith in
      record {
        ros1 = ros1;
        ros2 = ros2;
        a = a;
        b = b;
        read1 = read1;
        read2 = read2;
        behavior1 = behavior1;
        behavior2 = behavior2;
        alike = (Alike-iff (name == "action") a b).0 (matched ∙ ap ok is);
      }

  compare-Agrees : (name : String) → Agrees name → Passes (compare S p s) name
  unfolding compare behaviors_match
  compare-Agrees name g =
      let matched : behaviors_match name g.a g.b ≡ ok true =
        (Alike-iff (name == "action") g.a g.b).1 g.alike in
      (
        entry name true g.a g.b,
        rw (compare, g.read1, g.read2, g.behavior1, g.behavior2, matched) refl,
      )

  Agrees-all : (ns : List String) → AllPass (compare S p s) ns → AllAgree ns
  Agrees-all [] h = tt
  Agrees-all (n ∷ ns) h = (Agrees-compare n h.0, Agrees-all ns h.1)

  all-Agrees : (ns : List String) → AllAgree ns → AllPass (compare S p s) ns
  all-Agrees [] h = tt
  all-Agrees (n ∷ ns) h = (compare-Agrees n h.0, all-Agrees ns h.1)

-- Where reports can be written, the script exits with 0 exactly if, for each of the five scenarios,
-- both observations are there and their behaviours agree, and the result of the migration is there
-- and passes the four checks. The behaviours of the action agree when their sequences are equal and
-- both had feedback, the others when they are equal values.
pub compatibility_zero :
    (S : Shelf) (p : Paths) (s : S.State)
    → ((path : FilePath) (j : Json) (s' : S.State) → (S.save path j s').0 ≡ ok tt)
    → ((compatibility S p s).0 ≡ ok 0) ↔ (AllAgree S p s names × Classified S p s)
unfolding compatibility
compatibility_zero S p s saves =
    let scenarios = compare_each (compare S p s) names true in
    let (f, g) =
      finish_zero S saves p.output
        (S.load p.migration_result s >>= λ migration. scenarios >>= λ (matched, entries).
          classify migration >>= λ checks. ok (
            matched && all_checks checks,
            report (matched && all_checks checks) entries checks migration,
          ))
        s in
    (
      λ h.
          let (shown, e) = f h in
          let (migration, read, e1) = bind-eq-ok (S.load p.migration_result s) _ e in
          let ((matched, entries), compared, e2) = bind-eq-ok scenarios _ e1 in
          let (checks, classified, e3) = bind-eq-ok (classify migration) _ e2 in
          let (all_matched, sound) = both_true matched (all_checks checks) e3 in
          let good : scenarios ≡ ok (true, entries) =
            compared ∙ ap (λ b. ok (b, entries)) all_matched in
          (
            Agrees-all S p s names (AllPass-compare_each (compare S p s) names true good).1,
            record {
              migration = migration;
              checks = checks;
              read = read;
              classified = classified;
              sound = sound;
            },
          ),
      λ (all, c).
          let (entries, e) =
            compare_each-AllPass (compare S p s) names (all-Agrees S p s names all) in
          g (report true entries c.checks c.migration, rw (c.read, e, c.classified, c.sound) refl),
    )
