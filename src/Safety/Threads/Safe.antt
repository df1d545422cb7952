-- ===== src/Safety/Threads/Safe.antt =====
-- What a caller may rely on, whatever the interleaving of the threads.
use rosplus.Base.{ℕ, ◌≡◌, ◌⊎◌, true, false}
use rosplus.Safety.Gpio.{low}
use rosplus.Safety.Monitor.{Monitor}
use rosplus.Safety.Threads.{System, stopped, finished, fresh, Reach}
use rosplus.Safety.Threads.Invariant.{Audited, fresh-Inv, Reach-Inv}

-- Who sees `estop_triggered` set, at any moment of any interleaving of one session of a new
-- monitor, finds the pin low and the emergency stop in the audit log.
pub triggered_safe :
    (now : ℕ) (m : Monitor) {t : System}
    → m.estop_triggered ≡ false
    → Reach (fresh now m) t
    → t.mon.estop_triggered ≡ true
    → (t.mon.gpio.state ≡ low) × Audited t.mon.gpio
triggered_safe now m h r e =
    let i = Reach-Inv (fresh-Inv now m h) r in (i.flag_low e, i.flag_audited e)

-- Once `stop` has returned the pin is low and the monitor is not running, whatever the other
-- threads still do.
pub stopped_safe :
    (now : ℕ) (m : Monitor) {t : System}
    → m.estop_triggered ≡ false
    → Reach (fresh now m) t
    → t.controller ≡ stopped
    → (t.mon.gpio.state ≡ low) × (t.mon.running ≡ false)
stopped_safe now m h r e =
    let i = Reach-Inv (fresh-Inv now m h) r in (i.stopped_low e, i.stopped_off e)

-- The watching thread of a new monitor ends only after an emergency stop or a call of `stop`.
pub finished_accounts :
    (now : ℕ) (m : Monitor) {t : System}
    → m.estop_triggered ≡ false
    → Reach (fresh now m) t
    → t.watcher ≡ finished
    → (t.mon.estop_triggered ≡ true) ⊎ (t.mon.running ≡ false)
finished_accounts now m h r e = (Reach-Inv (fresh-Inv now m h) r).ended e
