-- ===== src/Scripts/Dds/Run.antt =====
-- `main` of scripts/benchmark_dds.py: a subscriber and a publisher are run, under load if asked, and
-- their report is completed and written.
pub mod Laws
pub mod Listed
use rosplus.Base.{ℕ, String, Bool, true, false, List, [], ◌∷◌, if◌then◌else◌}
use rosplus.Paths.{split}
use rosplus.Exec.{Result, ok, raise, Act, gets, lift}
use rosplus.Exec.Task.{Task, done, step, ◌>>=◌, ◌>>◌, try_finally}
use rosplus.Json.{Json}
use rosplus.Scripts.Lab.{Lab, Session, stop_workers, join_worker, call, on_world, sleep, launch}
use rosplus.Scripts.Lab.Await.{wait_zero}
use rosplus.Scripts.Dds.{
  Site, Options, subscribe_command, publish_command, set_item, note_lines, whole_lines, configured,
  load_of,
}
use rosplus.Scripts.Dds.Load.{each_worker, samples_of, start_load, workers_of, end_benchmark}

module _ (L : Lab) where
  -- The end of the workers and what they measured, added to the result.
  unfoldable pub take_load : Site → Json → Task (Session L) Json
  take_load e result = do
    step (call L stop_workers)
    step (each_worker L join_worker e.cores)
    samples ← step (samples_of L e.cores)
    step (lift (set_item "cpu_load" (load_of e samples) result))

  unfoldable pub add_load : Site → Options → Json → Task (Session L) Json
  add_load e o result = if o.load then take_load e result else done result

  -- `p.wait(timeout=35)` for each, and the test of its code; the message is the log
  unfoldable pub wait_each : List ℕ → Task (Session L) (Unit {0})
  wait_each [] = done tt
  wait_each (pid ∷ pids) = step (wait_zero L 35_000_000 L.log pid) >> wait_each pids

  abbrev pub read_report : Act (Session L) Json
  read_report s = (L.report s.world, s)

  -- From the report and the log to the result.
  unfoldable pub complete : Site → Options → Task (Session L) Json
  complete e o = do
    report ← step read_report
    log ← step (gets (λ s. L.log s.world))
    result ← step (lift (note_lines e.loads (whole_lines (split b'\n' log)) report))
    described ← step (lift (configured o result))
    add_load e o described

  -- The body of `try`.
  unfoldable pub dds_body : Site → Options → Task (Session L) (Unit {0})
  dds_body e o = do
    step (launch L (subscribe_command e o))
    step (sleep L 300_000)
    step (launch L (publish_command e o))
    pids ← step (gets (λ s. s.processes))
    wait_each pids
    result ← complete e o
    step (on_world L (L.write o.output result))

  unfoldable pub benchmark : Site → Options → Task (Session L) (Unit {0})
  benchmark e o = do
    step (start_load L e o)
    try_finally (dds_body e o) (end_benchmark L (workers_of L e o))
