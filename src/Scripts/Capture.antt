-- ===== src/Scripts/Capture.antt =====
-- scripts/capture_migration.py: ten messages of a talker are written down.
pub mod Laws
pub mod Listed
use rosplus.Base.{
  ℕ, zero, suc, String, ◌<>◌, Bool, true, false, Option, none, some, List, [], ◌∷◌, length, take,
  ltb, if◌then◌else◌,
}
use rosplus.Base.Text.{decimal}
use rosplus.Exec.{Result, ok, raise, Act, gets, proceed}
use rosplus.Exec.Task.{Task, done, fail, step, ◌>>=◌, ◌>>◌, try_finally}
use rosplus.Json.{Json, str, arr, obj, end, field, array}
use rosplus.Scripts.Lab.{
  Lab, Session, ping, init_node, create_node, subscribe, signal_shutdown, init, spin_once,
  runtime_error, is_os_error, timeout, call, on_world, sleep, wait_while, launch,
}
use rosplus.Scripts.Lab.Cleanup.{cleanup}
use rosplus.Scripts.Fixture.{close_ros2}

module _ (L : Lab) where
  -- The loop that looks for the master, of which a hundred rounds may pass without one.
  unfoldable pub find_master : ℕ → Act (Session L) (Unit {0})
  find_master zero s = (ok tt, s)
  find_master (suc rounds) s =
      let (r, t) = call L (ping "/rosplus_validation") s in
      let later = proceed (sleep L 50_000 t) (λ _. find_master rounds) in
      elim r [ ok _ ↦ (ok tt, t) | raise e ↦ if is_os_error e then later else (raise e, t) ]

  -- What comes before the node is started.
  unfoldable pub prepare : Bool → Task (Session L) Json
  prepare false = do
    step (launch L ("roscore" ∷ []))
    step (find_master 100)
    step (call L (init_node "rosplus_validation"))
    step (call L (subscribe "/chatter"))
  prepare true = do
    step (call L init)
    step (call L (create_node "rosplus_validation"))
    step (call L (subscribe "/chatter"))

  -- `if child.poll() is not None: raise RuntimeError(child.stderr.read().decode())`
  unfoldable pub child_alive : ℕ → Act (Session L) (Option (Unit {0}))
  child_alive child s = elim (L.poll child s.world) [
    | none ↦ (ok none, s)
    | some code ↦ (raise (runtime_error (L.errors child s.world)), s)
  ]

  unfoldable pub listen : Bool → ℕ → Act (Session L) (Option (Unit {0}))
  unfolding child_alive
  listen false child s = proceed (sleep L 10_000 s) (λ _. child_alive child)
  listen true child s = proceed (call L spin_once s) (λ _. child_alive child)

  abbrev pub few : Session L → Bool
  few s = ltb (length (L.heard s.world)) 10

  -- `if len(messages)<10: raise …`
  abbrev pub enough_messages : List Json → Task (Session L) (Unit {0})
  enough_messages messages =
      if ltb (length messages) 10
      then fail (runtime_error ("only captured " <> (decimal (length messages) <> " messages")))
      else done tt

  abbrev pub captured : Bool → List Json → Json
  captured ros2 messages = obj (
      field "ros" (str (if ros2 then "2" else "1"))
        (field "messages" (arr (array (λ j. j) (take 10 messages))) end))

  abbrev pub close : Bool → Act (Session L) (Unit {0})
  close true s = close_ros2 L s
  close false s = proceed (call L (signal_shutdown "validation complete") s) (λ _ t. (ok tt, t))

  unfoldable pub capture_body : ℕ → Bool → String → String → Task (Session L) (Unit {0})
  capture_body fuel ros2 node output = do
    prepare ros2
    child ← step (launch L ("python3" ∷ node ∷ []))
    wait_while L fuel timeout few (listen ros2 child)
    messages ← step (gets (λ s. L.heard s.world))
    enough_messages messages
    step (on_world L (L.write output (captured ros2 messages)))
    step (close ros2)

  unfoldable pub capture : ℕ → Bool → String → String → Task (Session L) (Unit {0})
  capture fuel ros2 node output = try_finally (capture_body fuel ros2 node output) (cleanup L)
