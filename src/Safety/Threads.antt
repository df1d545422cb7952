-- ===== src/Safety/Threads.antt =====
-- `SafetyMonitor` under its threads, one statement to a step: the caller of `start` and `stop`, the
-- thread that calls `heartbeat`, and the thread of `_watch`. The calls of `GpioSimulator.set` and
-- the tests are single steps. One session: `start` is called once, and `stop` after it.
pub mod Invariant
pub mod Safe
use rosplus.Base.{ℕ, ◌+◌, ◌≤◌, ◌≡◌, Bool, true, false}
use rosplus.Safety.Gpio.{Gpio, low, high, armed, e_stop, disarmed, set}
use rosplus.Safety.Monitor.{Monitor, watching, expired, poll_period}

-- Where the thread of `_watch` stands.
pub data Watcher : Type 0 where
  absent testing ageing firing flagging calling finished : Watcher
  sleeping : ℕ → Watcher

-- Whether a call of `heartbeat` has passed its guard.
pub data Beater : Type 0 where
  idle passed : Beater

-- Where the caller of `start` and `stop` stands.
pub data Controller : Type 0 where
  created set_running set_heartbeat set_gpio started cleared stopped : Controller

pub record System : Type 0 where
  pub mon : Monitor
  pub now : ℕ
  pub watcher : Watcher
  pub beater : Beater
  pub controller : Controller

-- The monitor with its pin set.
abbrev pub drive : ℕ → (ℕ → Gpio → Gpio) → Monitor → Monitor
drive now f m = record m { gpio = f now m.gpio }

pub data Step : System → System → Type 0 where
  tick : (s : System) (n : ℕ) → Step s (record s { now = s.now + n })
  -- `start`
  start_running :
      (s : System)
      → s.controller ≡ created
      → Step s (record s { mon = record s.mon { running = true }; controller = set_running })
  start_heartbeat :
      (s : System)
      → s.controller ≡ set_running
      → Step s
          (record s { mon = record s.mon { last_heartbeat = s.now }; controller = set_heartbeat })
  start_gpio :
      (s : System)
      → s.controller ≡ set_heartbeat
      → Step s (record s { mon = drive s.now (set high armed) s.mon; controller = set_gpio })
  start_thread :
      (s : System)
      → s.controller ≡ set_gpio
      → Step s (record s {
        mon = record s.mon { thread = true };
        watcher = testing;
        controller = started;
      })
  -- `stop`
  stop_running :
      (s : System)
      → s.controller ≡ started
      → Step s (record s { mon = record s.mon { running = false }; controller = cleared })
  stop_gpio :
      (s : System)
      → s.controller ≡ cleared
      → Step s (record s { mon = drive s.now (set low disarmed) s.mon; controller = stopped })
  -- `heartbeat`
  beat_guard :
      (s : System) → s.beater ≡ idle → watching s.mon ≡ true → Step s (record s { beater = passed })
  beat_write :
      (s : System)
      → s.beater ≡ passed
      → Step s (record s { mon = record s.mon { last_heartbeat = s.now }; beater = idle })
  -- `_watch`
  watch_on :
      (s : System)
      → s.watcher ≡ testing
      → watching s.mon ≡ true
      → Step s (record s { watcher = ageing })
  watch_off :
      (s : System)
      → s.watcher ≡ testing
      → watching s.mon ≡ false
      → Step s (record s { watcher = finished })
  watch_old :
      (s : System)
      → s.watcher ≡ ageing
      → expired s.now s.mon ≡ true
      → Step s (record s { watcher = firing })
  watch_young :
      (s : System)
      → s.watcher ≡ ageing
      → expired s.now s.mon ≡ false
      → Step s (record s { watcher = sleeping (s.now + poll_period s.mon) })
  watch_fire :
      (s : System)
      → s.watcher ≡ firing
      → Step s (record s { mon = drive s.now (set low e_stop) s.mon; watcher = flagging })
  watch_flag :
      (s : System)
      → s.watcher ≡ flagging
      → Step s (record s { mon = record s.mon { estop_triggered = true }; watcher = calling })
  watch_call : (s : System) → s.watcher ≡ calling → Step s (record s { watcher = finished })
  watch_wake :
      (s : System) (t : ℕ)
      → s.watcher ≡ sleeping t
      → t ≤ s.now
      → Step s (record s { watcher = testing })

-- A monitor that has been made and not started.
abbrev pub fresh : ℕ → Monitor → System
fresh now m = record { mon = m; now = now; watcher = absent; beater = idle; controller = created }

pub data Reach (s : System) : System → Type 0 where
  here : Reach s s
  next : {t u : System} → Reach s t → Step t u → Reach s u
