-- ===== src/Scripts/Benchmark/Subscriber.antt =====
-- The subscriber of scripts/stock_benchmark.py as it runs: its loop, its report, and its end.
pub mod Laws
use rosplus.Base.{
  ℕ, ◌+◌, String, ◌<>◌, Bool, true, false, ◌&&◌, Option, none, some, List, [], ◌∷◌, ltb,
  if◌then◌else◌,
}
use rosplus.Base.Int.{ℤ}
use rosplus.Base.Text.{decimal}
use rosplus.Exec.{Result, ok, raise, Act, gets, proceed}
use rosplus.Exec.Task.{Task, done, fail, step, ◌>>=◌, ◌>>◌, try_finally, loop}
use rosplus.Json.{Json}
use rosplus.Scripts.Lab.{
  Lab, Call, init, create_node, subscribe, spin_once, destroy_node, shutdown, runtime_error,
}
use rosplus.Scripts.Benchmark.{Tally, Summary, received, summary, too_few, Scheduling, schedule}

-- What the subscriber uses beside ROS: `int`, `os.sched_setscheduler`, the messages that a spin has handed to the callback,
-- with the times at which it ran, and the writing of the report.
pub record Post (L : Lab) : Type 0 where
  pub int : String → Option ℤ
  pub delivered : L.State → List (ℕ × String)
  pub set_fifo : L.State → Result (Unit {0}) × L.State
  pub save : Scheduling → Summary → L.State → Result (Unit {0}) × L.State

-- `count` and `latencies` beside the world.
pub record Listener (L : Lab) : Type 0 where
  pub world : L.State
  pub tally : Tally

-- The callback on each message in turn.
unfoldable pub absorb : (String → Option ℤ) → List (ℕ × String) → Tally → Result Tally
unfolding received
absorb int [] t = ok t
absorb int ((now, message) ∷ messages) t = elim (received int now message t) [
  | ok u ↦ absorb int messages u
  | raise e ↦ raise e
]

module _ (L : Lab) (P : Post L) where
  abbrev pub in_world : {A : Type 0} → (L.State → Result A × L.State) → Act (Listener L) A
  in_world f s = let (r, w) = f s.world in (r, record s { world = w })

  -- `executor.spin_once(timeout_sec=.1)`
  unfoldable pub spin : Act (Listener L) (Option (Unit {0}))
  unfolding absorb
  spin s =
      let (r, w) = L.perform spin_once s.world in
      let t : Listener L = record s { world = w } in
      elim r [
        | raise e ↦ (raise e, t)
        | ok _ ↦ elim (absorb P.int (P.delivered w) s.tally) [
          | ok u ↦ (ok none, record t { tally = u })
          | raise e ↦ (raise e, t)
        ]
      ]

  unfoldable pub gather : ℕ → ℕ → ℕ → Task (Listener L) (Option (Unit {0}))
  gather fuel messages limit s =
      let deadline = L.clock s.world + limit in
      loop fuel (λ t. ltb t.tally.count messages && ltb (L.clock t.world) deadline) spin s

  -- The subscriber's part of the body of `try`.
  unfoldable pub subscriber_body : ℕ → ℕ → ℕ → Bool → Scheduling → Task (Listener L) (Unit {0})
  subscriber_body fuel messages limit reported scheduling = do
    step (in_world (L.perform (subscribe "/chatter")))
    gather fuel messages limit
    tally ← step (gets (λ s. s.tally))
    if reported then step (in_world (P.save scheduling (summary messages tally))) else done tt
    if ltb tally.count messages
        then fail (runtime_error (too_few tally.count messages))
        else done tt

  -- The `finally`; the executor ends with its node.
  abbrev pub close_subscriber : Act (Listener L) (Unit {0})
  close_subscriber s =
      proceed (in_world (L.perform destroy_node) s)
        (λ _ t. proceed (in_world (L.perform shutdown) t) (λ _ u. (ok tt, u)))

  unfoldable pub subscriber : ℕ → ℕ → ℕ → Bool → Bool → Task (Listener L) (Unit {0})
  unfolding schedule
  subscriber fuel messages limit reported fifo = do
    scheduling ← step (in_world (schedule P.set_fifo fifo))
    step (in_world (L.perform init))
    step (in_world (L.perform (create_node "stock_dds_subscribe")))
    try_finally (subscriber_body fuel messages limit reported scheduling) close_subscriber
