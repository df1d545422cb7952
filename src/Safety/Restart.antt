-- ===== src/Safety/Restart.antt =====
-- `start` on a monitor whose emergency stop is latched.
use rosplus.Base.{ℕ, suc, ◌≡◌, true, some, arith}
use rosplus.Safety.Gpio.{high}
use rosplus.Safety.Monitor.{Monitor, start, heartbeat, watching}
use rosplus.Safety.Watch.{watch}

-- `start` does not refuse a monitor that has tripped: the pin goes high again, the new thread ends
-- at its first test without a further emergency stop, and heartbeats are ignored.
pub start_after_trip :
    (now later fuel : ℕ) (slack : ℕ → ℕ) (m : Monitor)
    → m.estop_triggered ≡ true
    → ((start now m).gpio.state ≡ high)
      × (watch (suc fuel) slack later (start now m) ≡ some (later, start now m))
      × (heartbeat later (start now m) ≡ start now m)
unfolding start heartbeat watch watching
start_after_trip now later fuel slack m h = (ground arith, rw h, rw h)
