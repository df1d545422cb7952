-- ===== src/Scripts/Reports/Validation.antt =====
-- scripts/compare_migration_validation.py. What `int` makes of a text is an argument, as in
-- Scripts/Timer.
pub mod Laws
use rosplus.Base.{
  String, ◌<>◌, Bool, true, false, Option, none, some, List, [], ◌∷◌, ◌++◌, ◌==◌, if◌then◌else◌, ℕ,
}
use rosplus.Base.Int.{ℤ}
use rosplus.Exec.{Result, ok, raise, Act}
use rosplus.Exec.Fallible.{◌>>=◌, both}
use rosplus.Json.{Json, bool, num, str, arr, obj, nil, end, field, array, null}
use rosplus.Json.Access.{item, get_or, elements, attribute_error}
use rosplus.Json.Equal.{equal}
use rosplus.Models.{FilePath}
use rosplus.Scripts.Timer.{parse_message, from_start, is_expected}
use rosplus.Scripts.Reports.{Shelf, Verdict, compare_each, exact, texts, observed, finish}

-- The arguments of the script.
pub record Paths : Type 0 where
  pub results : FilePath
  pub source : FilePath
  pub generated : FilePath
  pub output : FilePath

abbrev pub names : List String
names = "timer_parameter" ∷ "subscriber_callback" ∷ "trigger_service" ∷ []

abbrev pub limitations : List String
limitations =
    "This does not validate arbitrary Python, C++, custom interfaces, actionlib, tf, or nodelets."
    ∷ "TimerEvent contents, simulated time, timing jitter, and global ROS 1 parameter-server semantics are not equivalent."
    ∷ "The service adapter was exercised only with std_srvs/Trigger and a tuple response."
    ∷ "Recorded-bag and custom-message corpus validation remain open." ∷ []

abbrev pub comparison : String → String
comparison name =
    if name == "timer_parameter"
    then "same validated parameter and five consecutive timer counters; startup counters may differ during graph discovery"
    else exact

-- What is appended to `scenarios`.
abbrev pub entry : String → Bool → Json → Json → String → String → Json
entry name matches a b source generated = obj (
    field "scenario" (str name) (
      field "passed" (bool matches) (
        field "comparison" (str (comparison name)) (
          field "ros1_behavior" a (
            field "generated_ros2_behavior" b (
              field "source_sha256" (str source)
                (field "generated_sha256" (str generated) end)))))))

module _ (int : String → Option ℤ) where
  abbrev pub Counters : Type 0
  Counters = Option (List (String × ℤ))

  abbrev pub prepend : String × ℤ → Counters → Counters
  prepend p (some ps) = some (p ∷ ps)
  prepend p none = none

  -- The loop of `parse` over what the list of messages holds.
  unfoldable pub parse_each : List Json → Result Counters
  parse_each [] = ok (some [])
  parse_each (str message ∷ js) =
      let rest : String × ℤ → Result Counters = λ p. parse_each js >>= λ ps. ok (prepend p ps) in
      elim (parse_message int message) [ none ↦ ok none | some p ↦ rest p ]
  parse_each (_ ∷ js) = raise attribute_error

  -- `parse(behavior) == [0, 1, 2, 3, 4]`
  unfoldable pub is_counted : Json → Result Bool
  unfolding get_or elements parse_each from_start
  is_counted behavior = do
    messages ← get_or "messages" (arr nil) behavior
    js ← elements messages
    counters ← parse_each js
    ok (is_expected int (elim counters [ some ps ↦ from_start int ps | none ↦ none ]))

  unfoldable pub timers_match : Json → Json → Result Bool
  unfolding is_counted
  timers_match ros1 ros2 = both (is_counted ros1) (is_counted ros2)

  unfoldable pub behaviors_match : String → Json → Json → Result Bool
  unfolding timers_match equal
  behaviors_match name ros1 ros2 =
      if name == "timer_parameter" then timers_match ros1 ros2 else ok (equal ros1 ros2)

  module _ (S : Shelf) (p : Paths) (s : S.State) where
    unfoldable pub validate : String → Result Verdict
    unfolding item behaviors_match
    validate name = do
      ros1 ← observed S p.results name "-ros1" s
      ros2 ← observed S p.results name "-ros2" s
      a ← item "behavior" ros1
      b ← item "behavior" ros2
      matches ← behaviors_match name a b
      source ← S.digest (p.source ++ (name <> ".py") ∷ []) s
      generated ← S.digest (p.generated ++ (name <> ".py") ∷ []) s
      ok (matches, entry name matches a b source generated)

  unfoldable pub report : Bool → List Json → Json
  report passed scenarios = obj (
      field "passed" (bool passed) (
        field "scope"
          (str "Live behavior comparison for three bounded Python rospy migration fixtures")
          (field "scenarios" (arr (array (λ j. j) scenarios))
            (field "limitations" (texts limitations) end))))

  unfoldable pub validation : (S : Shelf) → Paths → Act S.State ℕ
  unfolding compare_each validate report finish
  validation S p s =
      finish S p.output
        (compare_each (validate S p s) names true >>= λ (passed, entries).
          ok (passed, report passed entries))
        s
