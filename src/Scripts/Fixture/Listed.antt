-- ===== src/Scripts/Fixture/Listed.antt =====
-- The list `processes` of scripts/validate_migration_scenario.py.
use rosplus.Base.{ℕ, ◌+◌, ◌<◌, String, Bool, true, false, List, [], ◌∷◌, inl, inr, Bool-cases}
use rosplus.Exec.{Act, Result-cases}
use rosplus.Exec.Task.Keeps.{Steady, Keeps, Keeps-done, Keeps-then, Steady-proceed, Steady-pure}
use rosplus.Scripts.Lab.{Lab, Session, timeout, is_refusal, ping, destroy_node, shutdown}
use rosplus.Scripts.Lab.Waiting.{IsTicking}
use rosplus.Scripts.Lab.Cleanup.Laws.{IsReaping}
use rosplus.Scripts.Fixture.Laws.{validate_fixture-EndsClean}
use rosplus.Scripts.Lab.Counting.{
  Counting, Listed, EndsAll, ends_all, listed_rules, Steady-call, Steady-checked_sleep,
  Steady-end_all,
}
use rosplus.Scripts.Fixture.{
  Fixture, timer_parameter, subscriber_callback, trigger_service, until_round, wait_until,
  publish_each, observe_ros1, validate_ros1, spin_while, spin_each, observe_ros2, validate_ros2,
  validate_fixture_body, validate_fixture, master_ready, close_ros2,
}

module _ (L : Lab) (C : Counting L) where
  Steady-until_round :
      (predicate : Act (Session L) Bool) (child : ℕ)
      → Steady (Listed L C) predicate
      → Steady (Listed L C) (until_round L predicate child)
  unfolding until_round
  Steady-until_round predicate child steady = record {
    at = λ s h. elim (Result-cases (predicate s).0) [
      | inr (x, raised) ↦ rw (until_round, raised) (steady.at s h)
      | inl (true, fine) ↦ rw (until_round, fine) (steady.at s h)
      | inl (false, fine) ↦
          rw (until_round, fine)
            ((Steady-checked_sleep L C child 20_000).at (predicate s).1 (steady.at s h))
    ];
  }

  Steady-master_ready : (name : String) → Steady (Listed L C) (master_ready L name)
  unfolding master_ready
  Steady-master_ready name = record {
    at = λ s h.
        let kept = (Steady-call L C (ping name)).at s h in
        elim (Result-cases (L.perform (ping name) s.world).0) [
          | inl (j, fine) ↦ rw (master_ready, fine) kept
          | inr (e, failed) ↦ elim (Bool-cases (is_refusal e)) [
            | inl refused ↦ rw (master_ready, failed, refused) kept
            | inr other ↦ rw (master_ready, failed, other) kept
          ]
        ];
  }

  Keeps-wait_until :
      (fuel : ℕ) (predicate : Act (Session L) Bool) (what : String) (child : ℕ)
      → Steady (Listed L C) predicate
      → Keeps (Listed L C) (wait_until L fuel predicate what child)
  unfolding wait_until
  Keeps-wait_until fuel predicate what child steady = search (listed_rules, Steady-until_round)

  Keeps-publish_each :
      (fuel child index : ℕ) (values : List String)
      → Keeps (Listed L C) (publish_each L fuel child index values)
  unfolding publish_each
  Keeps-publish_each fuel child index [] = Keeps-done tt
  Keeps-publish_each fuel child index (v ∷ vs) =
      Keeps-then _ _ (search (listed_rules, Keeps-wait_until))
        (Keeps-publish_each fuel child (index + 1) vs)

  Keeps-observe_ros1 :
      (fuel : ℕ) (scenario : Fixture) (path : String)
      → Keeps (Listed L C) (observe_ros1 L fuel scenario path)
  unfolding observe_ros1
  Keeps-observe_ros1 fuel timer_parameter path = search (listed_rules, Keeps-wait_until) depth 9
  Keeps-observe_ros1 fuel subscriber_callback path =
      search (listed_rules, Keeps-wait_until, Keeps-publish_each) depth 9
  Keeps-observe_ros1 fuel trigger_service path = search listed_rules depth 9

  Keeps-validate_ros1 :
      (fuel : ℕ) (scenario : Fixture) (path : String)
      → Keeps (Listed L C) (validate_ros1 L fuel scenario path)
  unfolding validate_ros1
  Keeps-validate_ros1 fuel scenario path =
      search (listed_rules, Keeps-wait_until, Steady-master_ready, Keeps-observe_ros1) depth 9

  Keeps-spin_each :
      (fuel child index : ℕ) (values : List String)
      → Keeps (Listed L C) (spin_each L fuel child index values)
  unfolding spin_each spin_while
  Keeps-spin_each fuel child index [] = Keeps-done tt
  Keeps-spin_each fuel child index (v ∷ vs) =
      Keeps-then _ _ (search listed_rules depth 9) (Keeps-spin_each fuel child (index + 1) vs)

  Keeps-observe_ros2 :
      (fuel : ℕ) (scenario : Fixture) (path : String)
      → Keeps (Listed L C) (observe_ros2 L fuel scenario path)
  unfolding observe_ros2 spin_while
  Keeps-observe_ros2 fuel timer_parameter path = search listed_rules depth 9
  Keeps-observe_ros2 fuel subscriber_callback path = search (listed_rules, Keeps-spin_each) depth 9
  Keeps-observe_ros2 fuel trigger_service path = search listed_rules depth 12

  pub Steady-close_ros2 : Steady (Listed L C) (close_ros2 L)
  Steady-close_ros2 =
      Steady-proceed _ _ (Steady-call L C destroy_node)
        (λ _. Steady-proceed _ _ (Steady-call L C shutdown) (λ _. Steady-pure tt))

  Keeps-validate_ros2 :
      (fuel : ℕ) (scenario : Fixture) (path : String)
      → Keeps (Listed L C) (validate_ros2 L fuel scenario path)
  unfolding validate_ros2
  Keeps-validate_ros2 fuel scenario path =
      search (listed_rules, Keeps-observe_ros2, Steady-close_ros2) depth 9

  Keeps-validate_fixture :
      (fuel : ℕ) (ros2 : Bool) (scenario : Fixture) (node output : String)
      → Keeps (Listed L C) (validate_fixture L fuel ros2 scenario node output)
  unfolding validate_fixture validate_fixture_body
  Keeps-validate_fixture fuel ros2 scenario node output =
      search (listed_rules, Keeps-validate_ros1, Keeps-validate_ros2, Steady-end_all) depth 12

-- Where time passes and processes can be killed and waited for, with more fuel than there are
-- microseconds in the limit of a wait, and if the list `processes` has at first the processes that
-- were started, `main` comes to its end, returning or raising, for either version of ROS and each
-- scenario; and then none of the processes that `Popen` has started for it is alive.
pub validate_fixture-EndsAll :
    (L : Lab) (C : Counting L) (fuel : ℕ) (ros2 : Bool) (scenario : Fixture) (node output : String)
    (s : Session L)
    → IsTicking L
    → IsReaping L
    → timeout < fuel
    → Listed L C s
    → EndsAll L C (validate_fixture L fuel ros2 scenario node output) s
validate_fixture-EndsAll L C fuel ros2 scenario node output s T R enough listed =
    ends_all L C _ s (validate_fixture-EndsClean L fuel ros2 scenario node output s T R enough)
      (Keeps-validate_fixture L C fuel ros2 scenario node output) listed
