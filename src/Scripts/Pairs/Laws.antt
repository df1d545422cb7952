-- ===== src/Scripts/Pairs/Laws.antt =====
-- The end of scripts/validate_migration_compatibility.py and of its processes.
use rosplus.Base.{ℕ, ◌+◌, ◌<◌, String, Bool, true, false, Option, List, [], ◌∷◌, arith}
use rosplus.Exec.{Act}
use rosplus.Exec.Errors.{Exception}
use rosplus.Exec.Task.Ends.{
  Ends, Ends-done, Ends-fail, Ends-step, Ends-if, Ends-try_finally, Ends-bind, Ends-then, first,
  first_bind,
}
use rosplus.Json.{Json}
use rosplus.Scripts.Lab.{
  Lab, Session, Call, timeout, is_refusal, checked_sleep, checked_spin, spin_once, lookup_transform,
}
use rosplus.Scripts.Lab.Waiting.{
  IsTicking, Ticks, Ends-await, Ends-await_value, Ticks-checked_sleep, Ticks-checked_spin,
}
use rosplus.Scripts.Lab.Cleanup.Laws.{IsReaping}
use rosplus.Scripts.Lab.Clean.{EndsClean, try_finally-clean}
use rosplus.Scripts.Fixture.{is_true, is_null}
use rosplus.Scripts.Pairs.{
  Pair, custom_interface, cpp, action, tf, checked_attempt, spin_attempt, start_ros1, exchange,
  pubsub_ros1, pubsub_ros2, need_server, action_ros1, action_ros2, tf_ros1, tf_ros2, behave_ros1,
  behave_ros2, run_ros1, run_ros2, validate_pair_body, validate_pair, inputs, is_lookup_error,
}

module _ (L : Lab) (T : IsTicking L) where
  Ticks-checked_attempt :
      (child : ℕ) (c : Call) (put_off : Exception → Bool)
      → Ticks {L = L} (checked_attempt L child c put_off)
  unfolding checked_attempt
  Ticks-checked_attempt child c put_off = record {
    at = λ s s' e.
        let w = (L.perform c s.world).1 in
        ground (arith, T.tick-perform c s.world, T.tick-sleep 50_000 w (omega arith));
  }

  Ticks-spin_attempt : (child : ℕ) → Ticks {L = L} (spin_attempt L child)
  unfolding spin_attempt
  Ticks-spin_attempt child = record {
    at = λ s s' e.
        let w = (L.perform spin_once s.world).1 in
        ground (arith, T.tick-spin s.world, T.tick-perform (lookup_transform "world" "tool") w);
  }

  module _ (fuel : ℕ) (enough : timeout < fuel) where
    Ends-exchange :
        (round : Act (Session L) (Option (Unit {0}))) (index : ℕ) (messages : List Json)
        → Ticks {L = L} round
        → Ends (exchange L fuel round index messages)
    unfolding exchange
    Ends-exchange round index [] ticks = Ends-done tt
    Ends-exchange round index (m ∷ ms) ticks =
        Ends-then _ _ (first _ (Ends-await fuel timeout _ round _ enough ticks))
          (Ends-exchange round (index + 1) ms ticks)

    Ends-pubsub_ros1 : (custom : Bool) (child : ℕ) → Ends (pubsub_ros1 L fuel custom child)
    unfolding pubsub_ros1
    Ends-pubsub_ros1 custom child = first _ (
        first _ (
          Ends-then _ _
            (Ends-await fuel timeout _ (checked_sleep L child 50_000) _ enough
              (Ticks-checked_sleep L T child 50_000 (omega arith)))
            (Ends-then _ _
              (Ends-exchange (checked_sleep L child 20_000) 1 (inputs custom)
                (Ticks-checked_sleep L T child 20_000 (omega arith)))
              (Ends-step _))))

    Ends-pubsub_ros2 : (custom : Bool) (child : ℕ) → Ends (pubsub_ros2 L fuel custom child)
    unfolding pubsub_ros2
    Ends-pubsub_ros2 custom child = first _ (
        first _ (
          Ends-then _ _
            (Ends-await fuel timeout _ (checked_spin L child) _ enough
              (Ticks-checked_spin L T child))
            (Ends-then _ _
              (Ends-exchange (checked_spin L child) 1 (inputs custom)
                (Ticks-checked_spin L T child))
              (Ends-step _))))

    Ends-need_server : (child : ℕ) → Ends (need_server L child)
    unfolding need_server
    Ends-need_server child =
        first _ (
          first_bind _
            (λ there. Ends-if (is_true there) _ _ (Ends-done tt) (first _ (Ends-fail _))))

    Ends-action_ros1 : (child : ℕ) → Ends (action_ros1 L child)
    unfolding action_ros1
    Ends-action_ros1 child = Ends-then _ _ (Ends-need_server child) (
        first _ (
          first_bind _ (λ over.
            Ends-then _ _ (Ends-if (is_true over) _ _ (Ends-done tt) (Ends-fail _))
              (first_bind _ (λ sequence. Ends-step _)))))

    Ends-action_ros2 : (child : ℕ) → Ends (action_ros2 L child)
    unfolding action_ros2
    Ends-action_ros2 child = Ends-then _ _ (Ends-need_server child) (
        first_bind _ (λ accepted.
          Ends-then _ _ (Ends-if (is_true accepted) _ _ (Ends-done tt) (Ends-fail _)) (
            first_bind _ (λ sequence.
              Ends-then _ _ (Ends-if (is_null sequence) _ _ (Ends-fail _) (Ends-done tt))
                (Ends-step _)))))

    Ends-behave_ros1 : (scenario : Pair) (child : ℕ) → Ends (behave_ros1 L fuel scenario child)
    unfolding behave_ros1 tf_ros1
    Ends-behave_ros1 custom_interface child = Ends-pubsub_ros1 true child
    Ends-behave_ros1 cpp child = Ends-pubsub_ros1 false child
    Ends-behave_ros1 action child = Ends-action_ros1 child
    Ends-behave_ros1 tf child =
        Ends-await_value fuel timeout _ _ enough (Ticks-checked_attempt child _ is_lookup_error)

    Ends-behave_ros2 : (scenario : Pair) (child : ℕ) → Ends (behave_ros2 L fuel scenario child)
    unfolding behave_ros2 tf_ros2
    Ends-behave_ros2 custom_interface child = Ends-pubsub_ros2 true child
    Ends-behave_ros2 cpp child = Ends-pubsub_ros2 false child
    Ends-behave_ros2 action child = Ends-action_ros2 child
    Ends-behave_ros2 tf child = Ends-await_value fuel timeout _ _ enough (Ticks-spin_attempt child)

    Ends-run_ros1 : (scenario : Pair) (node : String) → Ends (run_ros1 L fuel scenario node)
    unfolding run_ros1 start_ros1
    Ends-run_ros1 scenario node =
        Ends-then _ _
          (first_bind _ (λ master.
            Ends-await_value fuel timeout _ _ enough (Ticks-checked_attempt master _ is_refusal)))
          (first _ (
            first_bind _ (λ child.
              Ends-bind _ _ (Ends-behave_ros1 scenario child) (λ b. first _ (Ends-done b)))))

    Ends-run_ros2 : (scenario : Pair) (node : String) → Ends (run_ros2 L fuel scenario node)
    unfolding run_ros2
    Ends-run_ros2 scenario node =
        first _
          (first _ (first_bind _ (λ child. Ends-try_finally _ _ (Ends-behave_ros2 scenario child))))

    Ends-validate_pair_body :
        (ros2 : Bool) (scenario : Pair) (node output : String)
        → Ends (validate_pair_body L fuel ros2 scenario node output)
    unfolding validate_pair_body
    Ends-validate_pair_body ros2 scenario node output =
        Ends-bind _ _ (Ends-if ros2 _ _ (Ends-run_ros2 scenario node) (Ends-run_ros1 scenario node))
          (λ behavior. Ends-step _)

-- Where time passes and processes can be killed and waited for, and with more fuel than there are
-- microseconds in the limit of a wait, `main` comes to its end, returning or raising, for either
-- version of ROS and each pair; and then none of the processes that it started is alive.
pub validate_pair-EndsClean :
    (L : Lab) (fuel : ℕ) (ros2 : Bool) (scenario : Pair) (node output : String) (s : Session L)
    → IsTicking L
    → IsReaping L
    → timeout < fuel
    → EndsClean L (validate_pair L fuel ros2 scenario node output) s
unfolding validate_pair
validate_pair-EndsClean L fuel ros2 scenario node output s T R enough =
    try_finally-clean L R (validate_pair_body L fuel ros2 scenario node output) s
      (Ends-validate_pair_body L T fuel enough ros2 scenario node output)
