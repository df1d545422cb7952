-- ===== src/Scripts/Fixture/Laws.antt =====
-- The end of scripts/validate_migration_scenario.py and of its processes.
use rosplus.Base.{ℕ, ◌+◌, ◌<◌, ◌≤◌, String, Bool, not, List, [], ◌∷◌, arith, inl, inr}
use rosplus.Exec.{Act, gets, Result-cases}
use rosplus.Exec.Task.Ends.{
  Ends, Ends-done, Ends-fail, Ends-step, Ends-if, Ends-try_finally, Ends-bind, Ends-then, first,
  first_bind,
}
use rosplus.Scripts.Lab.{Lab, Session, ping, timeout, checked_sleep, spin_checked}
use rosplus.Scripts.Lab.Waiting.{
  IsTicking, Ticks, Ends-await, Ends-await_value, Ticks-checked_sleep, Ticks-spin_checked,
}
use rosplus.Scripts.Lab.Cleanup.Laws.{IsReaping}
use rosplus.Scripts.Lab.Clean.{EndsClean, try_finally-clean}
use rosplus.Scripts.Fixture.{
  Fixture, timer_parameter, subscriber_callback, trigger_service, until_round, wait_until,
  publish_each, observe_ros1, validate_ros1, spin_while, spin_each, observe_ros2, validate_ros2,
  validate_fixture_body, validate_fixture, heard_at_least, linked, master_ready, three_values,
  is_true, is_null,
}

module _ (L : Lab) (T : IsTicking L) where
  Ticks-until_round :
      (predicate : Act (Session L) Bool) (child : ℕ)
      → ((s : Session L) → L.clock s.world ≤ L.clock (predicate s).1.world)
      → Ticks {L = L} (until_round L predicate child)
  unfolding until_round checked_sleep
  Ticks-until_round predicate child kept = record {
    at = λ s s' e. elim (Result-cases (predicate s).0) [
      | inr (x, raised) ↦ absurd (ground arith)
      | inl (b, fine) ↦
          let t = (predicate s).1 in
          ground (
            arith,
            kept s,
            (Ticks-checked_sleep L T {A = Unit {0}} child 20_000 (omega arith)).at t s',
          )
    ];
  }

  module _ (fuel : ℕ) (enough : timeout < fuel) where
    Ends-spin_while :
        (child : ℕ) (pending : Session L → Bool) (what : String)
        → Ends (spin_while L fuel child pending what)
    unfolding spin_while
    Ends-spin_while child pending what =
        Ends-await fuel timeout pending (spin_checked L child) _ enough
          (Ticks-spin_checked L T child)

    Ends-spin_each :
        (child index : ℕ) (values : List String) → Ends (spin_each L fuel child index values)
    unfolding spin_each
    Ends-spin_each child index [] = Ends-done tt
    Ends-spin_each child index (v ∷ vs) =
        Ends-then _ _
          (first _ (Ends-spin_while child (λ s. not (heard_at_least L index s)) "callback output"))
          (Ends-spin_each child (index + 1) vs)

    Ends-wait_until :
        (predicate : Act (Session L) Bool) (what : String) (child : ℕ)
        → ((s : Session L) → L.clock s.world ≤ L.clock (predicate s).1.world)
        → Ends (wait_until L fuel predicate what child)
    unfolding wait_until
    Ends-wait_until predicate what child kept =
        Ends-await_value fuel timeout (until_round L predicate child) _ enough
          (Ticks-until_round predicate child kept)

    master_ready-kept :
        (name : String) (s : Session L) → L.clock s.world ≤ L.clock (master_ready L name s).1.world
    unfolding master_ready
    master_ready-kept name s = ground (arith, T.tick-perform (ping name) s.world)

    Ends-publish_each :
        (child index : ℕ) (values : List String) → Ends (publish_each L fuel child index values)
    unfolding publish_each
    Ends-publish_each child index [] = Ends-done tt
    Ends-publish_each child index (v ∷ vs) =
        Ends-then _ _
          (first _ (
            Ends-wait_until (gets (heard_at_least L (index + 1))) "callback output" child
              (λ s. omega arith)))
          (Ends-publish_each child (index + 1) vs)

    Ends-observe_ros1 :
        (scenario : Fixture) (path : String) → Ends (observe_ros1 L fuel scenario path)
    unfolding observe_ros1
    Ends-observe_ros1 timer_parameter path = first _ (
        first_bind _ (λ child.
          Ends-then _ _
            (Ends-wait_until (gets (heard_at_least L 5)) "five timer messages" child
              (λ s. omega arith))
            (Ends-step _)))
    Ends-observe_ros1 subscriber_callback path = first _ (
        first _ (
          first_bind _ (λ child.
            Ends-then _ _
              (Ends-wait_until (gets (linked L)) "subscriber and publisher connections" child
                (λ s. omega arith))
              (Ends-then _ _ (Ends-publish_each child 0 three_values) (Ends-step _)))))
    Ends-observe_ros1 trigger_service path =
        first _ (first _ (first_bind _ (λ response. Ends-done _)))

    Ends-validate_ros1 :
        (scenario : Fixture) (path : String) → Ends (validate_ros1 L fuel scenario path)
    unfolding validate_ros1
    Ends-validate_ros1 scenario path = first_bind _ (λ master.
        Ends-then _ _
          (Ends-wait_until (master_ready L "/rosplus_validation") "ROS 1 master" master
            (master_ready-kept "/rosplus_validation"))
          (first _ (Ends-observe_ros1 scenario path)))

    Ends-observe_ros2 :
        (scenario : Fixture) (path : String) → Ends (observe_ros2 L fuel scenario path)
    unfolding observe_ros2
    Ends-observe_ros2 timer_parameter path =
        first _ (first_bind _ (λ child. Ends-then _ _ (Ends-spin_while child _ _) (Ends-step _)))
    Ends-observe_ros2 subscriber_callback path = first _ (
        first _ (
          first_bind _ (λ child.
            Ends-then _ _ (Ends-spin_while child _ _)
              (Ends-then _ _ (Ends-spin_each child 1 three_values) (Ends-step _)))))
    Ends-observe_ros2 trigger_service path = first _ (
        first _ (
          first_bind _ (λ there.
            Ends-then _ _ (Ends-if (is_true there) _ _ (Ends-done tt) (Ends-fail _)) (
              first_bind _
                (λ response. Ends-if (is_null response) _ _ (Ends-fail _) (Ends-done _))))))

    Ends-validate_ros2 :
        (scenario : Fixture) (path : String) → Ends (validate_ros2 L fuel scenario path)
    unfolding validate_ros2
    Ends-validate_ros2 scenario path =
        first _ (first _ (Ends-try_finally _ _ (Ends-observe_ros2 scenario path)))

    Ends-validate_fixture_body :
        (ros2 : Bool) (scenario : Fixture) (node output : String)
        → Ends (validate_fixture_body L fuel ros2 scenario node output)
    unfolding validate_fixture_body
    Ends-validate_fixture_body ros2 scenario node output =
        Ends-bind _ _
          (Ends-if ros2 _ _ (Ends-validate_ros2 scenario node)
            (Ends-bind _ _ (Ends-validate_ros1 scenario node) (λ b. first _ (Ends-done b))))
          (λ behavior. Ends-step _)

-- Where time passes and processes can be killed and waited for, and with more fuel than there are
-- microseconds in the limit of a wait, `main` comes to its end, returning or raising, for either
-- version of ROS and each scenario; and then none of the processes that it started is alive.
pub validate_fixture-EndsClean :
    (L : Lab) (fuel : ℕ) (ros2 : Bool) (scenario : Fixture) (node output : String) (s : Session L)
    → IsTicking L
    → IsReaping L
    → timeout < fuel
    → EndsClean L (validate_fixture L fuel ros2 scenario node output) s
unfolding validate_fixture
validate_fixture-EndsClean L fuel ros2 scenario node output s T R enough =
    try_finally-clean L R (validate_fixture_body L fuel ros2 scenario node output) s
      (Ends-validate_fixture_body L T fuel enough ros2 scenario node output)
