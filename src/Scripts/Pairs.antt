-- ===== src/Scripts/Pairs.antt =====
-- scripts/validate_migration_compatibility.py: the nodes of the custom interface, C++, action and tf
-- pairs are run, and what they do is written down. Numbers with a fraction stand as their texts.
pub mod Laws
pub mod Listed
use rosplus.Base.{
  ℕ, ◌+◌, String, ◌<>◌, Bool, true, false, not, ◌&&◌, ◌||◌, Option, none, some, List, [], ◌∷◌,
  length, ltb, ◌==◌, if◌then◌else◌,
}
use rosplus.Exec.{Result, ok, raise, Act, gets, proceed}
use rosplus.Exec.Errors.{Exception, other_error}
use rosplus.Exec.Task.{Task, done, fail, step, ◌>>=◌, ◌>>◌, try_finally}
use rosplus.Json.{Json, num, str, arr, obj, Items, nil, cons, end, field, array}
use rosplus.Scripts.Lab.{
  Lab, Session, Call, ping, init_node, create_node, subscribe, advertise, signal_shutdown, init,
  publish, spin_once, create_client, wait_for_server, send_goal, wait_for_result, get_result,
  lookup_transform, runtime_error, is_refusal, timeout, call, on_world, sleep, launch, child_error,
  checked_sleep, checked_spin,
}
use rosplus.Scripts.Lab.Await.{await, await_value}
use rosplus.Scripts.Lab.Cleanup.{cleanup}
use rosplus.Scripts.Fixture.{is_true, is_null, linked, close_ros2, record_of}

-- `--scenario`
pub data Pair : Type 0 where
  custom_interface cpp action tf : Pair

abbrev pub pair_name : Pair → String
pair_name custom_interface = "custom_interface"
pair_name cpp = "cpp"
pair_name action = "action"
pair_name tf = "tf"

-- `s.endswith(suffix)`
unfoldable pub ends_with : String → String → Bool
ends_with suffix String.[] = suffix == ""
ends_with suffix (String.◌∷◌ c s) = String.◌∷◌ c s == suffix || ends_with suffix s

-- The command of `launch`.
unfoldable pub pair_command : String → List String
unfolding ends_with
pair_command path = if ends_with ".py" path then "python3" ∷ path ∷ [] else path ∷ []

abbrev pub sample : Json
sample = obj (
    field "sequence" (num 7) (
      field "label" (str "mixed Case")
        (field "samples" (arr (cons (str "1.5") (cons (str "-2.0") (cons (str "0.25") nil)))) end)))

-- The topics and the inputs of the two scenarios with a publisher.
abbrev pub input_topic : Bool → String
input_topic custom = if custom then "/compat/custom_input" else "/compat/cpp_input"

abbrev pub output_topic : Bool → String
output_topic custom = if custom then "/compat/custom_output" else "/compat/cpp_output"

abbrev pub inputs : Bool → List Json
inputs custom = if custom then sample ∷ [] else str "alpha" ∷ str "Beta 2" ∷ []

-- The exceptions of a transform that is not there yet.
abbrev pub is_lookup_error : Exception → Bool
is_lookup_error (other_error text) =
    text == "tf.LookupException"
    || text == "tf.ConnectivityException"
    || text == "tf.ExtrapolationException"
is_lookup_error _ = false

module _ (L : Lab) where
  -- A call whose value ends a wait, where some exceptions only put it off.
  unfoldable pub attempt :
      Call → (Exception → Bool) → Act (Session L) (Option Json) → Act (Session L) (Option Json)
  attempt c put_off later s =
      let (r, t) = call L c s in
      elim r [ ok j ↦ (ok (some j), t) | raise e ↦ if put_off e then later t else (raise e, t) ]

  abbrev pub pause : ℕ → Act (Session L) (Option Json)
  pause n s = proceed (sleep L n s) (λ _ t. (ok none, t))

  -- A round of `start_ros1`, and of `tf_ros1`.
  unfoldable pub checked_attempt : ℕ → Call → (Exception → Bool) → Act (Session L) (Option Json)
  unfolding child_error attempt
  checked_attempt child c put_off s =
      proceed (child_error L child s) (λ _. attempt c put_off (pause 50_000))

  unfoldable pub start_ros1 : ℕ → Task (Session L) Json
  start_ros1 fuel = do
    master ← step (launch L ("roscore" ∷ []))
    await_value L fuel timeout (checked_attempt master (ping "/rosplus_compatibility") is_refusal)
        "timed out waiting for ROS 1 master"

  -- `{"messages": outputs}`
  abbrev pub all_messages : Session L → Json
  all_messages s = obj (field "messages" (arr (array (λ j. j) (L.heard s.world))) end)

  -- The inputs are published in turn, and each waits for its output.
  unfoldable pub exchange :
      ℕ → Act (Session L) (Option (Unit {0})) → ℕ → List Json → Task (Session L) (Unit {0})
  exchange fuel round index [] = done tt
  exchange fuel round index (message ∷ messages) =
      step (call L (publish message))
      >> await L fuel timeout (λ s. ltb (length (L.heard s.world)) index) round
          "timed out waiting for output"
      >> exchange fuel round (index + 1) messages

  unfoldable pub pubsub_ros1 : ℕ → Bool → ℕ → Task (Session L) Json
  pubsub_ros1 fuel custom child = do
    step (call L (subscribe (output_topic custom)))
    step (call L (advertise (input_topic custom)))
    await L fuel timeout (λ s. not (linked L s)) (checked_sleep L child 50_000)
        "timed out waiting for pub/sub graph"
    exchange fuel (checked_sleep L child 20_000) 1 (inputs custom)
    step (gets all_messages)

  unfoldable pub pubsub_ros2 : ℕ → Bool → ℕ → Task (Session L) Json
  pubsub_ros2 fuel custom child = do
    step (call L (subscribe (output_topic custom)))
    step (call L (advertise (input_topic custom)))
    await L fuel timeout (λ s. not (ltb 0 (L.publisher_links s.world))) (checked_spin L child)
        "timed out waiting for pub/sub discovery"
    exchange fuel (checked_spin L child) 1 (inputs custom)
    step (gets all_messages)

  -- `{"sequence": …, "feedback_count": len(feedback)}`; the callback appends the feedback
  abbrev pub action_outcome : Json → Session L → Json
  action_outcome sequence s =
      obj (field "sequence" sequence (field "feedback_count" (num (length (L.heard s.world))) end))

  -- `if not client.wait_for_server(…): child_error(child); raise …`
  unfoldable pub need_server : ℕ → Task (Session L) (Unit {0})
  need_server child = do
    step (call L (create_client "/compat/fibonacci"))
    there ← step (call L wait_for_server)
    if is_true there
        then done tt
        else (step (child_error L child) >> fail (runtime_error "action server unavailable"))

  unfoldable pub action_ros1 : ℕ → Task (Session L) Json
  action_ros1 child = do
    need_server child
    step (call L send_goal)
    over ← step (call L wait_for_result)
    if is_true over then done tt else fail (runtime_error "action result timed out")
    sequence ← step (call L get_result)
    step (gets (action_outcome sequence))

  unfoldable pub action_ros2 : ℕ → Task (Session L) Json
  action_ros2 child = do
    need_server child
    accepted ← step (call L send_goal)
    if is_true accepted then done tt else fail (runtime_error "action goal rejected")
    sequence ← step (call L get_result)
    if is_null sequence then fail (runtime_error "action result timed out") else done tt
    step (gets (action_outcome sequence))

  unfoldable pub tf_ros1 : ℕ → ℕ → Task (Session L) Json
  tf_ros1 fuel child =
      await_value L fuel timeout
        (checked_attempt child (lookup_transform "world" "tool") is_lookup_error)
        "timed out waiting for transform"

  -- A round of `tf_ros2`, which passes over every exception of the lookup.
  unfoldable pub spin_attempt : ℕ → Act (Session L) (Option Json)
  unfolding child_error attempt
  spin_attempt child s = proceed (child_error L child s) (λ _ t.
      proceed (call L spin_once t)
        (λ _. attempt (lookup_transform "world" "tool") (λ _. true) (λ u. (ok none, u))))

  unfoldable pub tf_ros2 : ℕ → ℕ → Task (Session L) Json
  tf_ros2 fuel child =
      await_value L fuel timeout (spin_attempt child) "timed out waiting for transform"

  unfoldable pub behave_ros1 : ℕ → Pair → ℕ → Task (Session L) Json
  behave_ros1 fuel custom_interface child = pubsub_ros1 fuel true child
  behave_ros1 fuel cpp child = pubsub_ros1 fuel false child
  behave_ros1 fuel action child = action_ros1 child
  behave_ros1 fuel tf child = tf_ros1 fuel child

  unfoldable pub behave_ros2 : ℕ → Pair → ℕ → Task (Session L) Json
  behave_ros2 fuel custom_interface child = pubsub_ros2 fuel true child
  behave_ros2 fuel cpp child = pubsub_ros2 fuel false child
  behave_ros2 fuel action child = action_ros2 child
  behave_ros2 fuel tf child = tf_ros2 fuel child

  -- The two branches of `main`.
  unfoldable pub run_ros1 : ℕ → Pair → String → Task (Session L) Json
  run_ros1 fuel scenario node = do
    start_ros1 fuel
    step (call L (init_node "rosplus_compatibility"))
    child ← step (launch L (pair_command node))
    behavior ← behave_ros1 fuel scenario child
    step (call L (signal_shutdown "validation complete"))
    done behavior

  unfoldable pub run_ros2 : ℕ → Pair → String → Task (Session L) Json
  run_ros2 fuel scenario node = do
    step (call L init)
    step (call L (create_node "rosplus_compatibility"))
    child ← step (launch L (pair_command node))
    try_finally (behave_ros2 fuel scenario child) (close_ros2 L)

  unfoldable pub validate_pair_body :
      ℕ → Bool → Pair → String → String → Task (Session L) (Unit {0})
  validate_pair_body fuel ros2 scenario node output = do
    behavior ← (if ros2 then run_ros2 fuel scenario node else run_ros1 fuel scenario node)
    step (on_world L (L.write output (record_of L ros2 (pair_name scenario) behavior)))

  unfoldable pub validate_pair : ℕ → Bool → Pair → String → String → Task (Session L) (Unit {0})
  validate_pair fuel ros2 scenario node output =
      try_finally (validate_pair_body fuel ros2 scenario node output) (cleanup L)
