-- ===== src/Safety/Monitor.antt =====
-- The methods of `SafetyMonitor` in src/rosplus/safety.py, each run without interruption. Times are
-- whole microseconds of the monotonic clock, so `timeout_ms / 1000` seconds is `timeout_ms * 1000`.
use rosplus.Base.{
  ℕ, ◌-◌, ◌*◌, ◌/◌, min, Bool, true, false, not, ◌&&◌, ◌||◌, Option, none, some, ltb, nat_beq,
  if◌then◌else◌,
}
use rosplus.Safety.Gpio.{Gpio, low, high, armed, e_stop, disarmed, set}

pub record Monitor : Type 0 where
  pub timeout : ℕ
  pub gpio : Gpio
  pub last_heartbeat : ℕ
  pub estop_triggered : Bool
  pub running : Bool
  -- whether `_thread` holds a thread
  pub thread : Bool

-- `__init__`; `none` is the `ValueError`
unfoldable pub new : ℕ → Gpio → Option Monitor
new timeout_ms gpio =
    if ltb timeout_ms 5
    then none
    else some (record {
      timeout = timeout_ms * 1000;
      gpio = gpio;
      last_heartbeat = 0;
      estop_triggered = false;
      running = false;
      thread = false;
    })

-- `start`, but for the run of the thread
unfoldable pub start : ℕ → Monitor → Monitor
unfolding set
start now m = record m {
  running = true;
  last_heartbeat = now;
  gpio = set high armed now m.gpio;
  thread = true;
}

unfoldable pub heartbeat : ℕ → Monitor → Monitor
heartbeat now m =
    if not m.running || m.estop_triggered then m else record m { last_heartbeat = now }

-- The test of the loop in `_watch`.
unfoldable pub watching : Monitor → Bool
watching m = m.running && not m.estop_triggered

-- The age test: true when the last heartbeat is too old.
unfoldable pub expired : ℕ → Monitor → Bool
expired now m = ltb m.timeout (now - m.last_heartbeat)

-- The body of `if` in `_watch`, but for the call of `on_estop`.
unfoldable pub trip : ℕ → Monitor → Monitor
unfolding set
trip now m = record m { gpio = set low e_stop now m.gpio; estop_triggered = true }

-- A round of `_watch`, but for the sleep; when the loop is over its rounds change nothing.
unfoldable pub watch_round : ℕ → Monitor → Monitor
unfolding watching expired trip
watch_round now m = if watching m && expired now m then trip now m else m

-- `min(self.timeout / 10, 0.005)`
unfoldable pub poll_period : Monitor → ℕ
poll_period m = min (m.timeout / 10) 5000

-- `stop`, but for the join
unfoldable pub stop : ℕ → Monitor → Monitor
unfolding set
stop now m = record m { running = false; gpio = set low disarmed now m.gpio }

-- `status`; the age in microseconds is 0 before the first heartbeat
pub record Status : Type 0 where
  pub connected : Bool
  pub estop_triggered : Bool
  pub heartbeat_latency_us : ℕ

unfoldable pub status : ℕ → Monitor → Status
status now m = record {
  connected = m.running;
  estop_triggered = m.estop_triggered;
  heartbeat_latency_us = if nat_beq m.last_heartbeat 0 then 0 else now - m.last_heartbeat;
}
