-- ===== src/Server/Lifecycle.antt =====
-- `Application.__init__`, the body of `_heartbeat_loop`, and `close`, of src/rosplus/server.py. The
-- threads themselves are in Safety/Threads.
use rosplus.Base.{ℕ, String, Option, none, some, List, []}
use rosplus.Exec.{Result, ok, raise}
use rosplus.Exec.Errors.{value_error}
use rosplus.Models.{FilePath}
use rosplus.Disk.{Disk}
use rosplus.Safety.Gpio
use rosplus.Safety.Gpio.{Entry}
use rosplus.Safety.Monitor
use rosplus.Safety.Monitor.{Monitor, start, heartbeat}
use rosplus.Workspace.{Manager, new_manager}
use rosplus.Server.{Application}

module _ (D : Disk) where
  abbrev pub armed_application : String → Manager D → ℕ → Option Monitor → Result (Application D)
  armed_application token m now none = raise (value_error "timeout_ms must be >= 5")
  armed_application token m now (some monitor) = ok (record {
    sup = record { manager = m; processes = [] };
    token = token;
    safety = start now monitor;
  })

  -- `__init__`, over the lines that the log of the pin already holds
  unfoldable pub new_application :
      FilePath → String → List Entry → ℕ → D.State → Result (Application D) × D.State
  unfolding new_manager start Gpio.new Monitor.new
  new_application root token lines now d =
      let (r, d1) = new_manager D root d in
      elim r [
        | raise e ↦ (raise e, d1)
        | ok m ↦
            let (made, d2) = D.make_dirs root d1 in
            (
              elim made [
                | raise e ↦ raise e
                | ok _ ↦
                    armed_application token (record m { disk = d2 }) now
                      (Monitor.new 250 (Gpio.new lines now))
              ],
              d2,
            )
      ]

  -- One round of `_heartbeat_loop`
  unfoldable pub beat : ℕ → Application D → Application D
  unfolding heartbeat
  beat now app = record app { safety = heartbeat now app.safety }

  -- `close`, once the heartbeat thread has been joined
  unfoldable pub close : ℕ → Application D → Application D
  unfolding Monitor.stop
  close now app = record app { safety = Monitor.stop now app.safety }
