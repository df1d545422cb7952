-- ===== src/Scripts/Lab.antt =====
-- What the scripts that run ROS nodes share: the world they act on, the processes they start, and
-- their loops that wait. The world is the operating system's and ROS's; times are microseconds.
pub mod Cleanup
pub mod Waiting
pub mod Await
pub mod Clean
pub mod Counting
use rosplus.Base.{
  ℕ, ◌+◌, String, ◌<>◌, Bool, true, false, ◌&&◌, ◌||◌, Option, none, some, List, [], ◌∷◌, ◌++◌, ltb,
  ◌==◌, if◌then◌else◌,
}
use rosplus.Exec.{Result, ok, raise, Act, pure, gets, proceed, ◌>>=◌, ◌>>◌}
use rosplus.Exec.Task.{Task, loop}
use rosplus.Exec.Errors.{Exception, other_error}
use rosplus.Json.{Json}
use rosplus.Process.Table.{ExitCode}

pub data Signal : Type 0 where
  sigint sigterm sigkill : Signal

-- The calls of ROS that the scripts make; what each gives stands as JSON. `ping` is `getPid` of the
-- ROS 1 master, and a subscription is one whose callback appends what it gets to a list. Those after
-- `write_bag` are of the workers of a benchmark, each named by its core.
pub data Call : Type 0 where
  ping init_node create_node subscribe advertise signal_shutdown : String → Call
  init destroy_node shutdown spin_once : Call
  publish : Json → Call
  wait_for_service call_service create_client : String → Call
  wait_for_server send_goal : Call
  wait_for_result get_result : Call
  lookup_transform : String → String → Call
  write_bag : String → List (ℕ × String) → Call
  set_affinity : List ℕ → Call
  stop_workers worker_sample : Call
  start_worker join_worker worker_alive kill_worker : ℕ → Call

pub record Lab : Type 1 where
  pub State : Type 0
  -- `time.monotonic()`
  pub clock : State → ℕ
  -- `poll()`, and `stderr.read()`
  pub poll : ℕ → State → Option ExitCode
  pub errors : ℕ → State → String
  -- `Popen(…, start_new_session=True)`
  pub popen : List String → State → Result ℕ × State
  -- `os.killpg` on the group of a process, or `terminate()` and `kill()`
  pub killpg : Signal → ℕ → State → Result (Unit {0}) × State
  -- `wait(timeout=…)`: false is `TimeoutExpired`; and `wait()`
  pub wait : ℕ → ℕ → State → Bool × State
  pub join : ℕ → State → State
  -- `time.sleep`
  pub sleep : ℕ → State → State
  pub perform : Call → State → Result Json × State
  -- the list that the callback of the subscription appends to
  pub heard : State → List Json
  -- `get_num_connections()` or `get_subscription_count()` of the publisher, and of the subscription
  pub publisher_links : State → ℕ
  pub subscription_links : State → ℕ
  -- the messages of a recorded bag, with their topics
  pub recorded : String → State → List (String × String)
  -- what the processes have written to the log file and to the report
  pub log : State → String
  pub report : State → Result Json
  -- `Path(…).write_text(json.dumps(…))`
  pub write : String → Json → State → Result (Unit {0}) × State

-- `RuntimeError`
abbrev pub runtime_error : String → Exception
runtime_error text = other_error ("RuntimeError: " <> text)

-- `OSError` and `xmlrpc.client.Error`
abbrev pub is_os_error : Exception → Bool
is_os_error (other_error text) = text == "OSError"
is_os_error _ = false

abbrev pub is_refusal : Exception → Bool
is_refusal (other_error text) = text == "OSError" || text == "xmlrpc.client.Error"
is_refusal _ = false

-- `TIMEOUT = 15.0`
abbrev pub timeout : ℕ
timeout = 15_000_000

-- A run of a script: the world, and the list `processes`.
pub record Session (L : Lab) : Type 0 where
  pub world : L.State
  pub processes : List ℕ

module _ (L : Lab) where
  -- A step of the world.
  abbrev pub on_world : {A : Type 0} → (L.State → Result A × L.State) → Act (Session L) A
  on_world f s = let (r, w) = f s.world in (r, record s { world = w })

  abbrev pub call : Call → Act (Session L) Json
  call c = on_world (L.perform c)

  abbrev pub sleep : ℕ → Act (Session L) (Unit {0})
  sleep n s = (ok tt, record s { world = L.sleep n s.world })

  -- `child = Popen(command, …); processes.append(child)`
  unfoldable pub launch : List String → Act (Session L) ℕ
  launch command s =
      let (r, w) = L.popen command s.world in
      elim r [
        | ok pid ↦ (ok pid, record { world = w; processes = s.processes ++ pid ∷ [] })
        | raise e ↦ (raise e, record s { world = w })
      ]

  -- `child_error`
  unfoldable pub child_error : ℕ → Act (Session L) (Unit {0})
  child_error child s = elim (L.poll child s.world) [
    | none ↦ (ok tt, s)
    | some code ↦ (raise (runtime_error ("node exited early: " <> L.errors child s.world)), s)
  ]

  -- `deadline = time.monotonic() + limit; while pending and time.monotonic() < deadline: round`
  unfoldable pub wait_while :
      {A : Type 0}
      → ℕ
      → ℕ
      → (Session L → Bool)
      → Act (Session L) (Option A)
      → Task (Session L) (Option A)
  wait_while fuel limit pending round s =
      let deadline = L.clock s.world + limit in
      loop fuel (λ t. pending t && ltb (L.clock t.world) deadline) round s

  -- The rounds that go on after they have slept, or spun.
  unfoldable pub checked_sleep : {A : Type 0} → ℕ → ℕ → Act (Session L) (Option A)
  unfolding child_error
  checked_sleep child n = do child_error child; sleep n; pure none

  unfoldable pub checked_spin : {A : Type 0} → ℕ → Act (Session L) (Option A)
  unfolding child_error
  checked_spin child = do child_error child; call spin_once; pure none

  unfoldable pub sleep_checked : {A : Type 0} → ℕ → ℕ → Act (Session L) (Option A)
  unfolding child_error
  sleep_checked child n = do sleep n; child_error child; pure none

  unfoldable pub spin_checked : {A : Type 0} → ℕ → Act (Session L) (Option A)
  unfolding child_error
  spin_checked child = do call spin_once; child_error child; pure none
