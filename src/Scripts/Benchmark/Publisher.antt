-- ===== src/Scripts/Benchmark/Publisher.antt =====
-- The publisher of scripts/stock_benchmark.py as it runs. The frequency is a whole number, and a spin
-- of the executor runs the callback of the timer at most once.
pub mod Laws
pub mod Ending
use rosplus.Base.{
  ℕ, ◌+◌, ◌-◌, Bool, ◌&&◌, Option, none, String, List, ltb, nat_beq, not, if◌then◌else◌,
}
use rosplus.Exec.{Result, ok, raise, Act, gets, proceed}
use rosplus.Exec.Errors.{other_error}
use rosplus.Exec.Task.{Task, done, fail, step, ◌>>=◌, ◌>>◌, try_finally, loop}
use rosplus.Json.{Json, num, str, obj, field, end}
use rosplus.Scripts.Lab.{
  Lab, advertise, create_node, destroy_node, init, publish, runtime_error, shutdown, spin_once,
}
use rosplus.Scripts.Benchmark.Sender.{payload}
use rosplus.Scripts.Benchmark.{too_few, schedule}

-- What the publisher uses beside ROS: `os.sched_setscheduler`, whether the spin that led to a state has run the callback,
-- `time.monotonic_ns()`, the timer with a period of a second by the frequency, and `print`.
pub record Outlet (L : Lab) : Type 0 where
  pub set_fifo : L.State → Result (Unit {0}) × L.State
  pub due : L.State → Bool
  pub stamp : L.State → ℕ
  pub create_timer : ℕ → L.State → Result (Unit {0}) × L.State
  pub print : Json → L.State → Result (Unit {0}) × L.State

-- `count` beside the world.
pub record Sender (L : Lab) : Type 0 where
  pub world : L.State
  pub count : ℕ

-- The arguments.
pub record Options : Type 0 where
  pub messages : ℕ
  pub size : ℕ
  pub frequency : ℕ
  pub limit : ℕ

abbrev pub publisher_summary : ℕ → ℕ → ℕ → Json
publisher_summary count duration frequency = obj (
    field "event" (str "publisher_summary") (
      field "messages" (num count) (
        field "duration_seconds" (num duration)
          (field "configured_frequency_hz" (num frequency) end))))

module _ (L : Lab) (U : Outlet L) where
  abbrev pub in_world : {A : Type 0} → (L.State → Result A × L.State) → Act (Sender L) A
  in_world f s = let (r, w) = f s.world in (r, record s { world = w })

  -- `publish`
  unfoldable pub publish_next : ℕ → Act (Sender L) (Option (Unit {0}))
  publish_next size s =
      let (r, w) = L.perform (publish (str (payload size s.count (U.stamp s.world)))) s.world in
      elim r [
        | ok _ ↦ (ok none, record { world = w; count = s.count + 1 })
        | raise e ↦ (raise e, record s { world = w })
      ]

  -- `executor.spin_once(timeout_sec=.1)`
  unfoldable pub spin : ℕ → Act (Sender L) (Option (Unit {0}))
  unfolding publish_next
  spin size s =
      let (r, w) = L.perform spin_once s.world in
      let t : Sender L = record s { world = w } in
      elim r [
        | raise e ↦ (raise e, t)
        | ok _ ↦ if U.due w then publish_next size t else (ok none, t)
      ]

  abbrev pub sending : Options → ℕ → Sender L → Bool
  sending o deadline s = ltb s.count o.messages && ltb (L.clock s.world) deadline

  -- The publisher's part of the body of `try`, once it has slept.
  unfoldable pub send_all : ℕ → Options → ℕ → Task (Sender L) (Unit {0})
  unfolding spin
  send_all fuel o started = do
    if nat_beq o.frequency 0
        then fail (other_error "ZeroDivisionError")
        else step (in_world (U.create_timer o.frequency))
    loop fuel (sending o (started + o.limit)) (spin o.size)
    t ← step (gets (λ s. s))
    step (in_world (U.print (publisher_summary t.count (L.clock t.world - started) o.frequency)))
    if ltb t.count o.messages then fail (runtime_error (too_few t.count o.messages)) else done tt

  unfoldable pub publisher_body : ℕ → Options → Task (Sender L) (Unit {0})
  unfolding send_all
  publisher_body fuel o = do
    step (in_world (L.perform (advertise "/chatter")))
    step (in_world (λ w. (ok tt, L.sleep 2_000_000 w)))
    started ← step (gets (λ s. L.clock s.world))
    send_all fuel o started

  -- The `finally`; the executor ends with its node.
  abbrev pub close_publisher : Act (Sender L) (Unit {0})
  close_publisher s =
      proceed (in_world (L.perform destroy_node) s)
        (λ _ t. proceed (in_world (L.perform shutdown) t) (λ _ u. (ok tt, u)))

  unfoldable pub publisher : ℕ → Options → Bool → Task (Sender L) (Unit {0})
  unfolding publisher_body schedule
  publisher fuel o fifo = do
    step (in_world (schedule U.set_fifo fifo))
    step (in_world (L.perform init))
    step (in_world (L.perform (create_node "stock_dds_publish")))
    try_finally (publisher_body fuel o) close_publisher
