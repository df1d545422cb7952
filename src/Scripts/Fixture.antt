-- ===== src/Scripts/Fixture.antt =====
-- scripts/validate_migration_scenario.py: one fixture is run, and what it does is written down.
pub mod Laws
pub mod Listed
use rosplus.Base.{
  ℕ, ◌+◌, String, ◌<>◌, Bool, true, false, not, Option, none, some, List, [], ◌∷◌, ◌++◌, length,
  take, leb, ltb, if◌then◌else◌,
}
use rosplus.Exec.{Result, ok, raise, Act, gets, proceed}
use rosplus.Exec.Errors.{Exception}
use rosplus.Exec.Task.{Task, done, fail, step, ◌>>=◌, ◌>>◌, try_finally, onward, loop}
use rosplus.Json.{Json, null, bool, num, str, arr, obj, Fields, end, field, array, get}
use rosplus.Scripts.Lab.{
  Lab, Session, Call, ping, init_node, create_node, subscribe, advertise, signal_shutdown, init,
  destroy_node, shutdown, publish, wait_for_service, call_service, create_client, wait_for_result,
  runtime_error, is_refusal, timeout, call, on_world, wait_while, checked_sleep, launch,
  spin_checked,
}
use rosplus.Scripts.Lab.Await.{await, await_value}
use rosplus.Scripts.Lab.Cleanup.{cleanup}

-- `--scenario`
pub data Fixture : Type 0 where
  timer_parameter subscriber_callback trigger_service : Fixture

abbrev pub fixture_name : Fixture → String
fixture_name timer_parameter = "timer_parameter"
fixture_name subscriber_callback = "subscriber_callback"
fixture_name trigger_service = "trigger_service"

-- A name and its value.
abbrev pub Parameter : Type 0
Parameter = Option (String × String)

-- The command of `launch_node`.
unfoldable pub node_command : Bool → String → Parameter → List String
node_command ros2 path none = "python3" ∷ path ∷ []
node_command false path (some (name, value)) =
    "python3" ∷ path ∷ ("_" <> (name <> (":=" <> value))) ∷ []
node_command true path (some (name, value)) =
    "python3" ∷ path ∷ "--ros-args" ∷ "-p" ∷ (name <> (":=" <> value)) ∷ []

abbrev pub three_values : List String
three_values = "alpha" ∷ "Beta 2" ∷ "gamma" ∷ []

-- A property of what ROS gave: an object's `success` and `message`.
unfoldable part : String → Fields → Json
unfolding get
part key fs = elim (get key fs) [ some j ↦ j | none ↦ null ]

unfoldable pub outcome_of : Json → Json
unfolding part
outcome_of (obj fs) =
    obj (field "success" (part "success" fs) (field "message" (part "message" fs) end))
outcome_of _ = null

abbrev pub is_null : Json → Bool
is_null null = true
is_null _ = false

abbrev pub is_true : Json → Bool
is_true (bool b) = b
is_true _ = false

module _ (L : Lab) where
  -- `len(values) >= n`
  abbrev pub heard_at_least : ℕ → Session L → Bool
  heard_at_least n s = leb n (length (L.heard s.world))

  -- `{"messages": values[:n]}`
  abbrev pub first_messages : ℕ → Session L → Json
  first_messages n s = obj (field "messages" (arr (array (λ j. j) (take n (L.heard s.world)))) end)

  -- A round of `wait_until`: true once the predicate holds.
  unfoldable pub until_round : Act (Session L) Bool → ℕ → Act (Session L) (Option (Unit {0}))
  until_round predicate child s =
      let (r, t) = predicate s in
      elim r [
        | raise e ↦ (raise e, t)
        | ok b ↦ if b then (ok (some tt), t) else checked_sleep L child 20_000 t
      ]

  -- `wait_until(predicate, description, child)`
  unfoldable pub wait_until : ℕ → Act (Session L) Bool → String → ℕ → Task (Session L) (Unit {0})
  wait_until fuel predicate what child =
      await_value L fuel timeout (until_round predicate child) ("timed out waiting for " <> what)

  -- `master_ready`
  unfoldable pub master_ready : String → Act (Session L) Bool
  master_ready name s =
      let (r, t) = call L (ping name) s in
      elim r [
        | ok _ ↦ (ok true, t)
        | raise e ↦ if is_refusal e then (ok false, t) else (raise e, t)
      ]

  -- `publisher.publish(value)` and the wait for its answer, for each value, from the index on
  unfoldable pub publish_each : ℕ → ℕ → ℕ → List String → Task (Session L) (Unit {0})
  publish_each fuel child index [] = done tt
  publish_each fuel child index (value ∷ values) =
      step (call L (publish (str value)))
      >> wait_until fuel (gets (heard_at_least (index + 1))) "callback output" child
      >> publish_each fuel child (index + 1) values

  abbrev pub linked : Session L → Bool
  linked s = elim (ltb 0 (L.publisher_links s.world)) [
    | true ↦ ltb 0 (L.subscription_links s.world)
    | false ↦ false
  ]

  -- `validate_ros1`, once the master is there
  unfoldable pub observe_ros1 : ℕ → Fixture → String → Task (Session L) Json
  observe_ros1 fuel timer_parameter node_path = do
    step (call L (subscribe "/migration/timer"))
    child ← step (launch L (node_command false node_path (some ("prefix", "validated"))))
    wait_until fuel (gets (heard_at_least 5)) "five timer messages" child
    step (gets (first_messages 5))
  observe_ros1 fuel subscriber_callback node_path = do
    step (call L (subscribe "/migration/output"))
    step (call L (advertise "/migration/input"))
    child ← step (launch L (node_command false node_path none))
    wait_until fuel (gets linked) "subscriber and publisher connections" child
    publish_each fuel child 0 three_values
    step (gets (first_messages 3))
  observe_ros1 fuel trigger_service node_path = do
    step (launch L (node_command false node_path (some ("label", "validated"))))
    step (call L (wait_for_service "/migration/trigger"))
    response ← step (call L (call_service "/migration/trigger"))
    done (outcome_of response)

  unfoldable pub validate_ros1 : ℕ → Fixture → String → Task (Session L) Json
  validate_ros1 fuel scenario node_path = do
    master ← step (launch L ("roscore" ∷ []))
    wait_until fuel (master_ready "/rosplus_validation") "ROS 1 master" master
    step (call L (init_node "rosplus_migration_validation"))
    observe_ros1 fuel scenario node_path

  -- `while pending and time.monotonic() < deadline: spin_once(); check`, and the test after it
  unfoldable pub spin_while : ℕ → ℕ → (Session L → Bool) → String → Task (Session L) (Unit {0})
  spin_while fuel child pending what =
      await L fuel timeout pending (spin_checked L child) ("timed out waiting for " <> what)

  unfoldable pub spin_each : ℕ → ℕ → ℕ → List String → Task (Session L) (Unit {0})
  spin_each fuel child index [] = done tt
  spin_each fuel child index (value ∷ values) =
      step (call L (publish (str value)))
      >> spin_while fuel child (λ s. not (heard_at_least index s)) "callback output"
      >> spin_each fuel child (index + 1) values

  -- The body of `try` in `validate_ros2`.
  unfoldable pub observe_ros2 : ℕ → Fixture → String → Task (Session L) Json
  observe_ros2 fuel timer_parameter node_path = do
    step (call L (subscribe "/migration/timer"))
    child ← step (launch L (node_command true node_path (some ("prefix", "validated"))))
    spin_while fuel child (λ s. not (heard_at_least 5 s)) "five timer messages"
    step (gets (first_messages 5))
  observe_ros2 fuel subscriber_callback node_path = do
    step (call L (subscribe "/migration/output"))
    step (call L (advertise "/migration/input"))
    child ← step (launch L (node_command true node_path none))
    spin_while fuel child (λ s. not (ltb 0 (L.publisher_links s.world))) "subscriber discovery"
    spin_each fuel child 1 three_values
    step (gets (first_messages 3))
  observe_ros2 fuel trigger_service node_path = do
    step (launch L (node_command true node_path (some ("label", "validated"))))
    step (call L (create_client "/migration/trigger"))
    there ← step (call L (wait_for_service "/migration/trigger"))
    if is_true there then done tt else fail (runtime_error "timed out waiting for Trigger service")
    response ← step (call L (call_service "/migration/trigger"))
    if is_null response
        then fail (runtime_error "Trigger request did not complete")
        else done (outcome_of response)

  abbrev pub close_ros2 : Act (Session L) (Unit {0})
  close_ros2 s =
      proceed (call L destroy_node s) (λ _ t. proceed (call L shutdown t) (λ _ u. (ok tt, u)))

  unfoldable pub validate_ros2 : ℕ → Fixture → String → Task (Session L) Json
  validate_ros2 fuel scenario node_path = do
    step (call L init)
    step (call L (create_node "rosplus_migration_validation"))
    try_finally (observe_ros2 fuel scenario node_path) close_ros2

  -- The text that is written: `ros`, the scenario, and the behaviour.
  abbrev pub record_of : Bool → String → Json → Json
  record_of ros2 scenario behavior = obj (
      field "ros" (num (if ros2 then 2 else 1))
        (field "scenario" (str scenario) (field "behavior" behavior end)))

  -- The body of the outer `try` in `main`.
  unfoldable pub validate_fixture_body :
      ℕ → Bool → Fixture → String → String → Task (Session L) (Unit {0})
  validate_fixture_body fuel ros2 scenario node output = do
    behavior ←
        (if ros2
          then validate_ros2 fuel scenario node
          else (validate_ros1 fuel scenario node >>= λ b.
              step (call L (signal_shutdown "validation complete")) >> done b))
    step (on_world L (L.write output (record_of ros2 (fixture_name scenario) behavior)))

  unfoldable pub validate_fixture :
      ℕ → Bool → Fixture → String → String → Task (Session L) (Unit {0})
  validate_fixture fuel ros2 scenario node output =
      try_finally (validate_fixture_body fuel ros2 scenario node output) (cleanup L)
