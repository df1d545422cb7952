-- ===== src/Cli/Demo.antt =====
-- The safety demo of `main` in src/rosplus/cli.py and the thread of `_watch` beside it, as time goes
-- by. Each runs when its sleep is over, the earlier one first, and a round takes no time but for its
-- sleep; `slack` is what a sleep, or the print before the second loop, lasts beyond its period.
pub mod Laws
use rosplus.Base.{
  ℕ, zero, suc, ◌+◌, ◌*◌, Bool, true, false, not, ◌&&◌, Option, none, some, List, ltb, leb,
  if◌then◌else◌,
}
use rosplus.Exec.{Result, ok, raise}
use rosplus.Exec.Errors.{value_error}
use rosplus.Safety.Gpio
use rosplus.Safety.Gpio.{Entry}
use rosplus.Safety.Monitor
use rosplus.Safety.Monitor.{Monitor, start, heartbeat, watch_round, poll_period}

-- The arguments, with the duration in microseconds.
pub record Options : Type 0 where
  pub timeout_ms : ℕ
  pub heartbeat_ms : ℕ
  pub duration : ℕ

-- Which loop the caller is in: the first until `end`, or the second until `deadline`.
pub data Phase : Type 0 where
  beating : ℕ → Phase
  waiting : ℕ → Phase

-- The caller, the monitor, and when the caller and the thread run next.
pub record Demo : Type 0 where
  pub monitor : Monitor
  pub phase : Phase
  pub next_step : ℕ
  pub next_check : ℕ

-- A round of the caller; `none` is the end of the second loop.
unfoldable pub caller : Options → ℕ → Demo → Phase → Option Demo
unfolding heartbeat
caller o late t (beating end) =
    if ltb t.next_step end
    then some (record t {
      monitor = heartbeat t.next_step t.monitor;
      next_step = t.next_step + o.heartbeat_ms * 1000 + late;
    })
    else some (record t {
      phase = waiting (t.next_step + late + o.timeout_ms * 1000 + 200_000);
      next_step = t.next_step + late;
    })
caller o late t (waiting deadline) =
    if not t.monitor.estop_triggered && ltb t.next_step deadline
    then some (record t { next_step = t.next_step + 1000 + late })
    else none

-- A round of the thread.
unfoldable pub checker : ℕ → Demo → Demo
unfolding watch_round poll_period
checker late t = record t {
  monitor = watch_round t.next_check t.monitor;
  next_check = t.next_check + poll_period t.monitor + late;
}

-- The rounds until the caller is through: the time, and the monitor. `none` is the fuel's end.
unfoldable pub rounds : Options → ℕ → (ℕ → ℕ) → Demo → Option (ℕ × Monitor)
unfolding caller checker
rounds o zero slack t = none
rounds o (suc fuel) slack t = elim (leb t.next_step t.next_check) [
  | true ↦ elim (caller o (slack fuel) t t.phase) [
    | none ↦ some (t.next_step, t.monitor)
    | some t' ↦ rounds o fuel slack t'
  ]
  | false ↦ rounds o fuel slack (checker (slack fuel) t)
]

-- The demo up to the end of its second loop. It is begun at `now`, over the lines that the log file
-- holds, and the thread runs first at `first_check`.
unfoldable pub demo : Options → List Entry → ℕ → (ℕ → ℕ) → ℕ → ℕ → Result (Option (ℕ × Monitor))
unfolding Monitor.new start rounds Gpio.new
demo o lines fuel slack now first_check = elim (Monitor.new o.timeout_ms (Gpio.new lines now)) [
  | none ↦ raise (value_error "timeout_ms must be >= 5")
  | some m ↦ ok (
      rounds o fuel slack (record {
        monitor = start now m;
        phase = beating (now + o.duration);
        next_step = now;
        next_check = first_check;
      }))
]
