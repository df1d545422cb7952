-- ===== src/Scripts/Reports/Validation/Laws.antt =====
-- When scripts/compare_migration_validation.py reports success.
use rosplus.Base.{
  ◌≡◌, refl, ◌↔◌, ◌∙◌, sym, ap, String, ◌<>◌, Bool, true, false, Option, some, List, [], ◌∷◌, ◌++◌,
  arith, map, if◌then◌else◌, inl, inr, Option-cases, ◌==◌,
}
use rosplus.Base.Int.{ℤ}
use rosplus.Exec.{Result, ok, Result-cases}
use rosplus.Exec.Fallible.{◌>>=◌, bind-eq-ok, both_iff}
use rosplus.Json.{Json, null, bool, num, str, arr, obj, nil}
use rosplus.Json.Access.{item, get_or, elements}
use rosplus.Json.Equal.{equal}
use rosplus.Models.{FilePath}
use rosplus.Scripts.Timer.{parse_message, parse_messages, from_start, is_expected}
use rosplus.Scripts.Timer.Laws.{Consecutive, expected_iff, parse-some}
use rosplus.Scripts.Reports.{Shelf, observed, compare_each}
use rosplus.Scripts.Reports.Verdicts.{
  Passes, AllPass, AllPass-compare_each, compare_each-AllPass, finish_zero,
}
use rosplus.Scripts.Reports.Validation.{
  Paths, names, entry, parse_each, is_counted, timers_match, behaviors_match, validate, report,
  validation,
}

module _ (int : String → Option ℤ) where
  parse_each-some :
      (js : List Json) {ps : List (String × ℤ)}
      → parse_each int js ≡ ok (some ps)
      → (messages : List String) × (js ≡ map str messages) × (parse_messages int messages ≡ some ps)
  unfolding parse_each parse_messages
  parse_each-some [] h = ([], refl, ground arith)
  parse_each-some (str m ∷ js) {ps} h = elim (Option-cases (parse_message int m)) [
    | inl bad ↦ absurd (ground arith)
    | inr (p, good) ↦ elim (Result-cases (parse_each int js)) [
      | inr (e, failed) ↦ absurd (ground arith)
      | inl (counters, fine) ↦ elim (Option-cases counters) [
        | inl nothing ↦ absurd (ground arith)
        | inr (qs, counted) ↦
            let (messages, is, parsed) = parse_each-some js {ps = qs} (ground arith) in
            (m ∷ messages, ap (λ ks. str m ∷ ks) is, ground arith)
      ]
    ]
  ]
  parse_each-some (null ∷ js) h = absurd (ground arith)
  parse_each-some (bool b ∷ js) h = absurd (ground arith)
  parse_each-some (num n ∷ js) h = absurd (ground arith)
  parse_each-some (arr xs ∷ js) h = absurd (ground arith)
  parse_each-some (obj fs ∷ js) h = absurd (ground arith)

  parse_each-map :
      (messages : List String) {ps : List (String × ℤ)}
      → parse_messages int messages ≡ some ps
      → parse_each int (map str messages) ≡ ok (some ps)
  unfolding parse_each parse_messages
  parse_each-map [] h = ground arith
  parse_each-map (m ∷ messages) {ps} h = elim (Option-cases (parse_message int m)) [
    | inl bad ↦ absurd (ground arith)
    | inr (p, good) ↦ elim (Option-cases (parse_messages int messages)) [
      | inl bad ↦ absurd (ground arith)
      | inr (qs, fine) ↦ rw (parse_each, good, parse_each-map messages fine) (ground arith)
    ]
  ]

  -- The messages of a behaviour are five texts "validated:n" with consecutive counters.
  abbrev pub Counted : Json → Type 0
  Counted behavior =
      (messages : List String) × ((get_or "messages" (arr nil) behavior >>= elements)
        ≡ ok (map str messages))
      × Consecutive int messages

  is_counted-Counted : (behavior : Json) → is_counted int behavior ≡ ok true → Counted behavior
  unfolding is_counted
  is_counted-Counted behavior h =
      let (j, got, h1) = bind-eq-ok (get_or "messages" (arr nil) behavior) _ h in
      let (js, listed, h2) = bind-eq-ok (elements j) _ h1 in
      let (counters, parsed, h3) = bind-eq-ok (parse_each int js) _ h2 in
      elim (Option-cases counters) [
        | inl nothing ↦ absurd (ground arith)
        | inr (ps, counted) ↦
            let (messages, is, fine) = parse_each-some js {ps = ps} (ground arith) in
            let expected : is_expected int (from_start int ps) ≡ true = ground arith in
            (
              messages,
              ap (λ (r : Result Json). r >>= elements) got ∙ listed ∙ ap ok is,
              (expected_iff int messages).0 (parse-some int messages fine ∙ expected),
            )
      ]

  Counted-is_counted : (behavior : Json) → Counted behavior → is_counted int behavior ≡ ok true
  unfolding is_counted
  Counted-is_counted behavior (messages, read, (start, e)) =
      let (j, got, listed) = bind-eq-ok (get_or "messages" (arr nil) behavior) elements read in
      let good = sym (parse-some int messages e) ∙ (expected_iff int messages).1 (start, e) in
      rw (is_counted, got, listed, parse_each-map messages e, good) refl

  -- Two behaviours of a scenario agree: those of the timers by their counters, the others as values.
  abbrev pub Alike : Bool → Json → Json → Type 0
  Alike true a b = Counted a × Counted b
  Alike false a b = equal a b ≡ true

  Alike-iff :
      (timer : Bool) (a b : Json)
      → ((if timer then timers_match int a b else ok (equal a b)) ≡ ok true) ↔ Alike timer a b
  unfolding timers_match
  Alike-iff true a b =
      let (f, g) = both_iff (is_counted int a) (is_counted int b) in
      (
        λ h. (is_counted-Counted a (f h).0, is_counted-Counted b (f h).1),
        λ c. g (Counted-is_counted a c.0, Counted-is_counted b c.1),
      )
  Alike-iff false a b = (λ h. ground arith, λ h. ground arith)

  module _ (S : Shelf) (p : Paths) (s : S.State) where
    -- The observations of the scenario are there, their behaviours agree, and both files have a hash.
    pub record Agrees (name : String) : Type 0 where
      pub ros1 : Json
      pub ros2 : Json
      pub a : Json
      pub b : Json
      pub source : String
      pub generated : String
      pub read1 : observed S p.results name "-ros1" s ≡ ok ros1
      pub read2 : observed S p.results name "-ros2" s ≡ ok ros2
      pub behavior1 : item "behavior" ros1 ≡ ok a
      pub behavior2 : item "behavior" ros2 ≡ ok b
      pub alike : Alike (name == "timer_parameter") a b
      pub hashed1 : S.digest (p.source ++ (name <> ".py") ∷ []) s ≡ ok source
      pub hashed2 : S.digest (p.generated ++ (name <> ".py") ∷ []) s ≡ ok generated

    abbrev pub AllAgree : List String → Type 0
    AllAgree [] = Unit
    AllAgree (name ∷ ns) = Agrees name × AllAgree ns

    Agrees-validate : (name : String) → Passes (validate int S p s) name → Agrees name
    unfolding validate behaviors_match
    Agrees-validate name (shown, h) =
        let (ros1, read1, h1) = bind-eq-ok (observed S p.results name "-ros1" s) _ h in
        let (ros2, read2, h2) = bind-eq-ok (observed S p.results name "-ros2" s) _ h1 in
        let (a, behavior1, h3) = bind-eq-ok (item "behavior" ros1) _ h2 in
        let (b, behavior2, h4) = bind-eq-ok (item "behavior" ros2) _ h3 in
        let (matches, matched, h5) = bind-eq-ok (behaviors_match int name a b) _ h4 in
        let (source, hashed1, h6) =
          bind-eq-ok (S.digest (p.source ++ (name <> ".py") ∷ []) s) _ h5 in
        let (generated, hashed2, h7) =
          bind-eq-ok (S.digest (p.generated ++ (name <> ".py") ∷ []) s) _ h6 in
        let is : matches ≡ true = ground arith in
        record {
          ros1 = ros1;
          ros2 = ros2;
          a = a;
          b = b;
          source = source;
          generated = generated;
          read1 = read1;
          read2 = read2;
          behavior1 = behavior1;
          behavior2 = behavior2;
          alike = (Alike-iff (name == "timer_parameter") a b).0 (matched ∙ ap ok is);
          hashed1 = hashed1;
          hashed2 = hashed2;
        }

    validate-Agrees : (name : String) → Agrees name → Passes (validate int S p s) name
    unfolding validate behaviors_match
    validate-Agrees name g =
        let matched : behaviors_match int name g.a g.b ≡ ok true =
          (Alike-iff (name == "timer_parameter") g.a g.b).1 g.alike in
        (
          entry name true g.a g.b g.source g.generated,
          rw (validate, g.read1, g.read2, g.behavior1, g.behavior2, matched, g.hashed1, g.hashed2)
              refl,
        )

    Agrees-all : (ns : List String) → AllPass (validate int S p s) ns → AllAgree ns
    Agrees-all [] h = tt
    Agrees-all (n ∷ ns) h = (Agrees-validate n h.0, Agrees-all ns h.1)

    all-Agrees : (ns : List String) → AllAgree ns → AllPass (validate int S p s) ns
    all-Agrees [] h = tt
    all-Agrees (n ∷ ns) h = (validate-Agrees n h.0, all-Agrees ns h.1)

-- Where reports can be written, the script exits with 0 exactly if, for each of the three scenarios,
-- both observations are there and their behaviours agree, and both files of the fixture have a hash.
-- The behaviours of the timer agree when each holds five texts "validated:n" with consecutive
-- counters, the others when they are equal values.
pub validation_zero :
    (int : String → Option ℤ) (S : Shelf) (p : Paths) (s : S.State)
    → ((path : FilePath) (j : Json) (s' : S.State) → (S.save path j s').0 ≡ ok tt)
    → ((validation int S p s).0 ≡ ok 0) ↔ AllAgree int S p s names
unfolding validation
validation_zero int S p s saves =
    let scenarios = compare_each (validate int S p s) names true in
    let (f, g) =
      finish_zero S saves p.output
        (scenarios >>= λ (passed, entries). ok (passed, report int passed entries)) s in
    (
      λ h.
          let (shown, e) = f h in
          let ((passed, entries), compared, e1) = bind-eq-ok scenarios _ e in
          let good : scenarios ≡ ok (true, entries) = ground arith in
          Agrees-all int S p s names (AllPass-compare_each (validate int S p s) names true good).1,
      λ all.
          let (entries, e) =
            compare_each-AllPass (validate int S p s) names (all-Agrees int S p s names all) in
          g (report int true entries, rw e refl),
    )
