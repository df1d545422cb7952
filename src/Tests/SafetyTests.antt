-- ===== src/Tests/SafetyTests.antt =====
-- The safety monitor at a timeout of 10 ms: it is started at 100, and trips after 20000.
use rosplus.Base.{◌≡◌, refl, true, false, arith, some, []}
use rosplus.Safety.Gpio.{low, high, set}
use rosplus.Safety.Monitor.{Monitor, watching, expired, start, heartbeat}
use rosplus.Safety.Watch.{watch, Trips, watch-Trips}
use rosplus.Safety.Threads.{
  System, start_running, start_heartbeat, start_gpio, start_thread, stop_running, stop_gpio, tick,
  watch_on, watch_old, watch_fire, watch_flag, watch_call, fresh, Reach, here, next,
}
use rosplus.Safety.Threads.Invariant.{Audited}
use rosplus.Safety.Threads.Safe.{triggered_safe, stopped_safe}
use rosplus.Safety.Restart.{start_after_trip}
use rosplus.Cli.Demo.{Options}
use rosplus.Cli.Demo.Laws.{ExitsZero, demo-ExitsZero}
use rosplus.Tests.Data.{monitor}

abbrev Session : Type 0
Session = (t : System) × Reach (fresh 100 monitor) t

abbrev begun : Session
begun = (
  _,
  next (next (next (next here (start_running _ refl)) (start_heartbeat _ refl)) (start_gpio _ refl))
      (start_thread _ refl),
)

abbrev tripped : Session
unfolding watching expired set
tripped = (
  _,
  next
      (next
        (next (next (next begun.1 (watch_on _ refl refl)) (tick _ 20000)) (watch_old _ refl refl))
        (watch_fire _ refl))
      (watch_flag _ refl),
)

abbrev ended : Session
unfolding tripped
ended =
    (_, next (next (next tripped.1 (watch_call _ refl)) (stop_running _ refl)) (stop_gpio _ refl))

triggered_safe_example : (tripped.0.mon.gpio.state ≡ low) × Audited tripped.0.mon.gpio
unfolding tripped
triggered_safe_example = triggered_safe 100 monitor refl tripped.1 refl

stopped_safe_example : (ended.0.mon.gpio.state ≡ low) × (ended.0.mon.running ≡ false)
unfolding tripped ended
stopped_safe_example = stopped_safe 100 monitor refl ended.1 refl

-- A monitor that was started at 100.
abbrev started : Monitor
started = record monitor { running = true; last_heartbeat = 100; thread = true }

watch-Trips_example : Trips started 3 (watch 10002 (λ n. 3) 100 started)
unfolding watching
watch-Trips_example =
    watch-Trips 10002 (λ n. 3) 3 started (λ n. omega arith) refl (omega arith) (omega arith)

abbrev latched : Monitor
latched = record monitor { estop_triggered = true }

start_after_trip_example :
    ((start 5 latched).gpio.state ≡ high)
    × (watch 3 (λ n. 0) 6 (start 5 latched) ≡ some (6, start 5 latched))
    × (heartbeat 6 (start 5 latched) ≡ start 5 latched)
start_after_trip_example = start_after_trip 5 6 2 (λ n. 0) latched refl

-- Heartbeats every 2 ms for 5 ms, with a timeout of 10 ms.
abbrev short_demo : Options
short_demo = record { timeout_ms = 10; heartbeat_ms = 2; duration = 5000 }

demo-ExitsZero_example : ExitsZero short_demo [] 450_000 (λ n. 3) 100 101
demo-ExitsZero_example =
    demo-ExitsZero short_demo [] 450_000 (λ n. 3) 3 100 101 (omega arith) (omega arith)
      (λ n. omega arith) (omega arith) (omega arith) (omega arith) (omega arith)
