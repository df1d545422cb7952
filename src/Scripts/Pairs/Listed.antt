-- ===== src/Scripts/Pairs/Listed.antt =====
-- The list `processes` of scripts/validate_migration_compatibility.py.
use rosplus.Base.{
  ℕ, ◌+◌, ◌<◌, String, Bool, true, false, Option, none, List, [], ◌∷◌, inl, inr, Bool-cases,
}
use rosplus.Exec.{Act, Result-cases}
use rosplus.Exec.Errors.{Exception}
use rosplus.Exec.Task.Keeps.{Steady, Keeps, Keeps-done, Keeps-then, Steady-proceed, Steady-pure}
use rosplus.Json.{Json}
use rosplus.Scripts.Lab.{Lab, Session, Call, timeout, spin_once, lookup_transform}
use rosplus.Scripts.Lab.Waiting.{IsTicking}
use rosplus.Scripts.Lab.Cleanup.Laws.{IsReaping}
use rosplus.Scripts.Lab.Counting.{
  Counting, Listed, EndsAll, ends_all, listed_rules, Steady-call, Steady-sleep, Steady-child_error,
  Steady-end_all,
}
use rosplus.Scripts.Fixture.Listed.{Steady-close_ros2}
use rosplus.Scripts.Pairs.{
  Pair, custom_interface, cpp, action, tf, attempt, pause, checked_attempt, spin_attempt,
  start_ros1, exchange, pubsub_ros1, pubsub_ros2, need_server, action_ros1, action_ros2, tf_ros1,
  tf_ros2, behave_ros1, behave_ros2, run_ros1, run_ros2, validate_pair_body, validate_pair,
}
use rosplus.Scripts.Pairs.Laws.{validate_pair-EndsClean}

module _ (L : Lab) (C : Counting L) where
  Steady-attempt :
      (c : Call) (put_off : Exception → Bool) (later : Act (Session L) (Option Json))
      → Steady (Listed L C) later
      → Steady (Listed L C) (attempt L c put_off later)
  unfolding attempt
  Steady-attempt c put_off later steady = record {
    at = λ s h.
        let kept = (Steady-call L C c).at s h in
        elim (Result-cases (L.perform c s.world).0) [
          | inl (j, fine) ↦ rw (attempt, fine) kept
          | inr (e, failed) ↦ elim (Bool-cases (put_off e)) [
            | inl go_on ↦ rw (attempt, failed, go_on) (steady.at _ kept)
            | inr stop ↦ rw (attempt, failed, stop) kept
          ]
        ];
  }

  Steady-pause : (n : ℕ) → Steady (Listed L C) (pause L n)
  Steady-pause n = Steady-proceed _ _ (Steady-sleep L C n) (λ _. Steady-pure none)

  Steady-checked_attempt :
      (child : ℕ) (c : Call) (put_off : Exception → Bool)
      → Steady (Listed L C) (checked_attempt L child c put_off)
  unfolding checked_attempt
  Steady-checked_attempt child c put_off =
      Steady-proceed _ _ (Steady-child_error L C child)
        (λ _. Steady-attempt c put_off _ (Steady-pause 50_000))

  Steady-spin_attempt : (child : ℕ) → Steady (Listed L C) (spin_attempt L child)
  unfolding spin_attempt
  Steady-spin_attempt child = Steady-proceed _ _ (Steady-child_error L C child) (λ _.
      Steady-proceed _ _ (Steady-call L C spin_once)
        (λ _. Steady-attempt (lookup_transform "world" "tool") (λ _. true) _ (Steady-pure none)))

  ruleset pair_rules = (listed_rules, Steady-checked_attempt, Steady-spin_attempt)

  Keeps-exchange :
      (fuel : ℕ) (round : Act (Session L) (Option (Unit {0}))) (index : ℕ) (messages : List Json)
      → Steady (Listed L C) round
      → Keeps (Listed L C) (exchange L fuel round index messages)
  unfolding exchange
  Keeps-exchange fuel round index [] steady = Keeps-done tt
  Keeps-exchange fuel round index (m ∷ ms) steady =
      Keeps-then _ _ (search listed_rules depth 9) (Keeps-exchange fuel round (index + 1) ms steady)

  Keeps-pubsub_ros1 :
      (fuel : ℕ) (custom : Bool) (child : ℕ) → Keeps (Listed L C) (pubsub_ros1 L fuel custom child)
  unfolding pubsub_ros1
  Keeps-pubsub_ros1 fuel custom child = search (listed_rules, Keeps-exchange) depth 12

  Keeps-pubsub_ros2 :
      (fuel : ℕ) (custom : Bool) (child : ℕ) → Keeps (Listed L C) (pubsub_ros2 L fuel custom child)
  unfolding pubsub_ros2
  Keeps-pubsub_ros2 fuel custom child = search (listed_rules, Keeps-exchange) depth 12

  Keeps-need_server : (child : ℕ) → Keeps (Listed L C) (need_server L child)
  unfolding need_server
  Keeps-need_server child = search listed_rules depth 12

  Keeps-action_ros1 : (child : ℕ) → Keeps (Listed L C) (action_ros1 L child)
  unfolding action_ros1
  Keeps-action_ros1 child = search (listed_rules, Keeps-need_server) depth 12

  Keeps-action_ros2 : (child : ℕ) → Keeps (Listed L C) (action_ros2 L child)
  unfolding action_ros2
  Keeps-action_ros2 child = search (listed_rules, Keeps-need_server) depth 12

  Keeps-behave_ros1 :
      (fuel : ℕ) (scenario : Pair) (child : ℕ)
      → Keeps (Listed L C) (behave_ros1 L fuel scenario child)
  unfolding behave_ros1 tf_ros1
  Keeps-behave_ros1 fuel custom_interface child = Keeps-pubsub_ros1 fuel true child
  Keeps-behave_ros1 fuel cpp child = Keeps-pubsub_ros1 fuel false child
  Keeps-behave_ros1 fuel action child = Keeps-action_ros1 child
  Keeps-behave_ros1 fuel tf child = search pair_rules

  Keeps-behave_ros2 :
      (fuel : ℕ) (scenario : Pair) (child : ℕ)
      → Keeps (Listed L C) (behave_ros2 L fuel scenario child)
  unfolding behave_ros2 tf_ros2
  Keeps-behave_ros2 fuel custom_interface child = Keeps-pubsub_ros2 fuel true child
  Keeps-behave_ros2 fuel cpp child = Keeps-pubsub_ros2 fuel false child
  Keeps-behave_ros2 fuel action child = Keeps-action_ros2 child
  Keeps-behave_ros2 fuel tf child = search pair_rules

  Keeps-run_ros1 :
      (fuel : ℕ) (scenario : Pair) (node : String)
      → Keeps (Listed L C) (run_ros1 L fuel scenario node)
  unfolding run_ros1 start_ros1
  Keeps-run_ros1 fuel scenario node = search (pair_rules, Keeps-behave_ros1) depth 12

  Keeps-run_ros2 :
      (fuel : ℕ) (scenario : Pair) (node : String)
      → Keeps (Listed L C) (run_ros2 L fuel scenario node)
  unfolding run_ros2
  Keeps-run_ros2 fuel scenario node =
      search (pair_rules, Keeps-behave_ros2, Steady-close_ros2) depth 12

  Keeps-validate_pair :
      (fuel : ℕ) (ros2 : Bool) (scenario : Pair) (node output : String)
      → Keeps (Listed L C) (validate_pair L fuel ros2 scenario node output)
  unfolding validate_pair validate_pair_body
  Keeps-validate_pair fuel ros2 scenario node output =
      search (listed_rules, Keeps-run_ros1, Keeps-run_ros2, Steady-end_all) depth 12

-- Where time passes and processes can be killed and waited for, with more fuel than there are
-- microseconds in the limit of a wait, and if the list `processes` has at first the processes that
-- were started, `main` comes to its end, returning or raising, for either version of ROS and each
-- pair; and then none of the processes that `Popen` has started for it is alive.
pub validate_pair-EndsAll :
    (L : Lab) (C : Counting L) (fuel : ℕ) (ros2 : Bool) (scenario : Pair) (node output : String)
    (s : Session L)
    → IsTicking L
    → IsReaping L
    → timeout < fuel
    → Listed L C s
    → EndsAll L C (validate_pair L fuel ros2 scenario node output) s
validate_pair-EndsAll L C fuel ros2 scenario node output s T R enough listed =
    ends_all L C _ s (validate_pair-EndsClean L fuel ros2 scenario node output s T R enough)
      (Keeps-validate_pair L C fuel ros2 scenario node output) listed
