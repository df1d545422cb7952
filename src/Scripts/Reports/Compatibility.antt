-- ===== src/Scripts/Reports/Compatibility.antt =====
-- scripts/compare_migration_compatibility.py.
pub mod Laws
use rosplus.Base.{
  String, ◌<>◌, Bool, true, false, ◌&&◌, ◌||◌, List, [], ◌∷◌, ◌==◌, if◌then◌else◌, ℕ, Option, none,
  some,
}
use rosplus.Exec.{Result, ok, raise, Act}
use rosplus.Exec.Fallible.{◌>>=◌, both}
use rosplus.Json.{Json, null, bool, num, str, arr, obj, nil, end, field, array}
use rosplus.Json.Access.{item, get_or, elements, is_positive, has_text, any_of}
use rosplus.Json.Equal.{equal}
use rosplus.Models.{FilePath}
use rosplus.Scripts.Reports.{Shelf, Verdict, compare_each, exact, texts, observed, finish}

-- The arguments of the script.
pub record Paths : Type 0 where
  pub results : FilePath
  pub migration_result : FilePath
  pub output : FilePath

abbrev pub names : List String
names = "recorded_bag" ∷ "custom_interface" ∷ "cpp" ∷ "action" ∷ "tf" ∷ []

abbrev pub limitations : List String
limitations =
    "C++, actionlib, and TF were behavior-tested as explicit manual ROS 2 ports; the converter correctly classifies their ROS 1 sources as manual."
    ∷ "Custom-interface automatic conversion covers one message with scalar, string, and variable-length array fields."
    ∷ "Bag validation uses equivalent native ROS 1 and ROS 2 bag formats with the same canonical String dataset."
    ∷ "Custom services/actions, nested interface packages, rosbag format conversion, nodelets, dynamic_reconfigure, simulated time, and large production workspaces remain outside this corpus."
    ∷ "Physical GPIO, relay, PWM, motor-power cutoff, and target-hardware timing require connected hardware and are not exercised here."
    ∷ []

abbrev pub comparison : String → String
comparison name =
    if name == "action"
    then "exact durable result sequence and feedback observed on both transports"
    else exact

abbrev pub migration_mode : String → String
migration_mode name =
    if name == "recorded_bag" || name == "custom_interface"
    then "automatic"
    else "manual paired port"

-- `behavior.get("feedback_count", 0) > 0`
unfoldable pub has_feedback : Json → Result Bool
unfolding get_or is_positive
has_feedback behavior = get_or "feedback_count" (num 0) behavior >>= is_positive

unfoldable pub actions_match : Json → Json → Result Bool
unfolding get_or has_feedback equal
actions_match ros1 ros2 = do
  a ← get_or "sequence" null ros1
  b ← get_or "sequence" null ros2
  both (ok (equal a b)) (both (has_feedback ros1) (has_feedback ros2))

unfoldable pub behaviors_match : String → Json → Json → Result Bool
unfolding actions_match equal
behaviors_match name ros1 ros2 =
    if name == "action" then actions_match ros1 ros2 else ok (equal ros1 ros2)

pub record Classification : Type 0 where
  pub cpp_manual : Bool
  pub actionlib_manual : Bool
  pub tf_manual : Bool
  pub migration_status_partial : Bool

abbrev is_unsupported_tf : Json → Result Bool
is_unsupported_tf warning =
    both (has_text "unsupported ROS 1 dependency" warning) (has_text "tf_broadcaster.py" warning)

-- `classification`, from the result of the migration
unfoldable pub classify : Json → Result Classification
unfolding get_or elements any_of has_text equal
classify migration = do
  warnings ← get_or "warnings" (arr nil) migration
  js ← elements warnings
  cpp ← any_of (has_text "C++ source requires manual") js
  actionlib ← any_of (has_text "actionlib") js
  tf ← any_of is_unsupported_tf js
  status ← get_or "status" null migration
  ok (record {
    cpp_manual = cpp;
    actionlib_manual = actionlib;
    tf_manual = tf;
    migration_status_partial = equal status (str "partial");
  })

-- `all(classification.values())`
abbrev pub all_checks : Classification → Bool
all_checks c = c.cpp_manual && c.actionlib_manual && c.tf_manual && c.migration_status_partial

unfoldable pub classification_json : Classification → Json
classification_json c = obj (
    field "cpp_manual" (bool c.cpp_manual) (
      field "actionlib_manual" (bool c.actionlib_manual) (
        field "tf_manual" (bool c.tf_manual)
          (field "migration_status_partial" (bool c.migration_status_partial) end))))

-- What is appended to `scenarios`.
abbrev pub entry : String → Bool → Json → Json → Json
entry name matches a b = obj (
    field "scenario" (str name) (
      field "passed" (bool matches) (
        field "comparison" (str (comparison name)) (
          field "ros1_behavior" a
            (field "ros2_behavior" b (field "migration_mode" (str (migration_mode name)) end))))))

module _ (S : Shelf) (p : Paths) (s : S.State) where
  unfoldable pub compare : String → Result Verdict
  unfolding item behaviors_match
  compare name = do
    ros1 ← observed S p.results name "-ros1" s
    ros2 ← observed S p.results name "-ros2" s
    a ← item "behavior" ros1
    b ← item "behavior" ros2
    matches ← behaviors_match name a b
    ok (matches, entry name matches a b)

unfoldable pub report : Bool → List Json → Classification → Json → Json
unfolding classification_json
report passed scenarios checks migration = obj (
    field "passed" (bool passed) (
      field "scope"
        (str
          "Recorded bags, custom interfaces, C++, actionlib/actions, TF, and migration classification")
        (field "scenarios" (arr (array (λ j. j) scenarios)) (
          field "classification_checks" (classification_json checks)
            (field "migration_result" migration (field "limitations" (texts limitations) end))))))

unfoldable pub compatibility : (S : Shelf) → Paths → Act S.State ℕ
unfolding compare_each compare classify report finish
compatibility S p s =
    finish S p.output
      (S.load p.migration_result s >>= λ migration.
        compare_each (compare S p s) names true >>= λ (matched, entries).
        classify migration >>= λ checks.
        let passed = matched && all_checks checks in
        ok (passed, report passed entries checks migration))
      s
