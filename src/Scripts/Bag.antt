-- ===== src/Scripts/Bag.antt =====
-- scripts/validate_recorded_bag.py: recorded inputs are replayed through a node, and its recorded
-- outputs are compared with what is expected. The directory holds a bag of inputs and one of outputs.
pub mod Laws
use rosplus.Base.{
  ℕ, ◌+◌, ◌*◌, String, ◌<>◌, Bool, true, false, not, ◌&&◌, Option, none, some, List, [], ◌∷◌, ◌++◌,
  length, ◌==◌, if◌then◌else◌,
}
use rosplus.Paths.{path_beq}
use rosplus.Exec.{Result, ok, raise, Act, gets, proceed}
use rosplus.Exec.Errors.{Exception, other_error}
use rosplus.Exec.Task.{Task, done, fail, step, ◌>>=◌, ◌>>◌, try_finally}
use rosplus.Json.{Json, bool, num, str, arr, obj, end, field, array}
use rosplus.Process.Table.{ExitCode, is_zero}
use rosplus.Scripts.Lab.{
  Lab, Session, ping, init_node, init, shutdown, signal_shutdown, write_bag, runtime_error,
  is_refusal, call, on_world, sleep, launch,
}
use rosplus.Scripts.Lab.Await.{await_value, wait_zero}
use rosplus.Scripts.Lab.Cleanup.{terminate, terminate_all}

-- `INPUTS`, `EXPECTED`, and `TIMEOUT = 20`
abbrev pub inputs : List String
inputs = "alpha" ∷ "Beta 2" ∷ "gamma" ∷ []

abbrev pub expected : List String
expected = "ALPHA:seen" ∷ "BETA 2:seen" ∷ "GAMMA:seen" ∷ []

abbrev pub bag_timeout : ℕ
bag_timeout = 20_000_000

-- The inputs with the times at which they are written, a tenth of a second apart from the first.
abbrev pub timed : ℕ → ℕ → List String → List (ℕ × String)
timed start index [] = []
timed start index (value ∷ values) =
    (start + index * 100_000_000, value) ∷ timed start (index + 1) values

-- The data of the messages on the topic of the outputs.
unfoldable pub on_output : List (String × String) → List String
on_output [] = []
on_output ((topic, data_) ∷ messages) =
    let rest = on_output messages in if topic == "/migration/output" then data_ ∷ rest else rest

pub record Replay : Type 0 where
  pub outputs : List String
  pub passed : Bool

-- `outputs == EXPECTED`; lists of texts are compared like paths
abbrev pub replay : List String → Replay
replay outputs = record { outputs = outputs; passed = path_beq outputs expected }

module _ (L : Lab) where
  -- A round of `wait_master`.
  unfoldable pub master_round : ℕ → Act (Session L) (Option (Unit {0}))
  master_round master s = elim (L.poll master s.world) [
    | some code ↦ (raise (runtime_error "roscore exited"), s)
    | none ↦
        let (r, t) = call L (ping "/bag_validation") s in
        elim r [
          | ok _ ↦ (ok (some tt), t)
          | raise e ↦
              if is_refusal e
              then proceed (sleep L 50_000 t) (λ _ u. (ok none, u))
              else (raise e, t)
        ]
  ]

  abbrev pub recorded_outputs : String → Session L → List String
  recorded_outputs bag s = on_output (L.recorded bag s.world)

  abbrev add_process : ℕ → ℕ → Session L → Session L
  add_process node recorder s = record s { processes = s.processes ++ node ∷ recorder ∷ [] }

  -- Both are started before either is listed: a node whose recorder does not start is on no list.
  unfoldable pub start_pair : List String → List String → Act (Session L) ℕ
  start_pair node_command record_command s =
      proceed (on_world L (L.popen node_command) s) (λ node t.
        proceed (on_world L (L.popen record_command) t)
          (λ recorder u. (ok recorder, add_process node recorder u)))

  -- What both versions do once ROS is up: a node, a recorder, and a player whose end is awaited.
  unfoldable pub play :
      List String → List String → ℕ → List String → String → Task (Session L) (Unit {0})
  play node record_command pause play_command message = do
    recorder ← step (start_pair node record_command)
    step (sleep L pause)
    player ← step (launch L play_command)
    step (wait_zero L bag_timeout (λ _. message) player)
    step (sleep L 500_000)
    step (on_world L (terminate L true recorder))

  unfoldable pub bag_ros1 : ℕ → String → String → Task (Session L) Replay
  bag_ros1 fuel node_path directory = do
    master ← step (launch L ("roscore" ∷ []))
    await_value L fuel bag_timeout (master_round master) "ROS 1 master timeout"
    step (call L (init_node "bag_validation"))
    step (call L (write_bag (directory <> "/input.bag") (timed 1_000_000_000 0 inputs)))
    play ("python3" ∷ node_path ∷ [])
        ("rosbag" ∷ "record" ∷ "-O" ∷ (directory <> "/output") ∷ "/migration/output" ∷ []) 1_500_000
        ("rosbag" ∷ "play" ∷ "--delay=1" ∷ (directory <> "/input.bag") ∷ []) "ROS 1 bag play failed"
    outputs ← step (gets (recorded_outputs (directory <> "/output.bag")))
    step (call L (signal_shutdown "validation complete"))
    done (replay outputs)

  unfoldable pub bag_ros2 : String → String → Task (Session L) Replay
  bag_ros2 node_path directory = do
    step (call L (write_bag (directory <> "/input") (timed 1_000_000_000 0 inputs)))
    step (call L init)
    play ("python3" ∷ node_path ∷ [])
        ("ros2"
          ∷ "bag"
          ∷ "record"
          ∷ "--storage"
          ∷ "sqlite3"
          ∷ "-o"
          ∷ (directory <> "/output")
          ∷ "/migration/output"
          ∷ [])
        2_000_000 ("ros2" ∷ "bag" ∷ "play" ∷ (directory <> "/input") ∷ "--delay" ∷ "1" ∷ [])
        "ROS 2 bag play failed"
    outputs ← step (gets (recorded_outputs (directory <> "/output")))
    step (call L shutdown)
    done (replay outputs)

  abbrev pub replay_body : Bool → Replay → Json
  replay_body ros2 r = obj (
      field "ros" (num (if ros2 then 2 else 1)) (
        field "scenario" (str "recorded_bag") (
          field "behavior"
            (obj (
              field "input_messages" (arr (array str inputs)) (
                field "recorded_output_messages" (arr (array str r.outputs)) (
                  field "expected" (arr (array str expected))
                    (field "passed" (bool r.passed) end)))))
            end)))

  -- The body of `try` in `main`; `SystemExit(1)` is an exception too.
  unfoldable pub bag_body : ℕ → Bool → String → String → String → Task (Session L) (Unit {0})
  bag_body fuel ros2 node directory output = do
    behavior ← (if ros2 then bag_ros2 node directory else bag_ros1 fuel node directory)
    step (on_world L (L.write output (replay_body ros2 behavior)))
    if behavior.passed then done tt else fail (other_error "SystemExit: 1")

  unfoldable pub validate_bag : ℕ → Bool → String → String → String → Task (Session L) (Unit {0})
  validate_bag fuel ros2 node directory output =
      try_finally (bag_body fuel ros2 node directory output)
        (λ s. on_world L (terminate_all L s.processes) s)
