-- ===== src/Cli.antt =====
-- `main` of src/rosplus/cli.py, from the arguments that `argparse` made.
pub mod Demo
use rosplus.Base.{ℕ, Bool, true, false, if◌then◌else◌}
use rosplus.Exec.{Result, ok, raise}
use rosplus.Safety.Monitor
use rosplus.Safety.Monitor.{Monitor, Status, status}
use rosplus.Migration.Tree.{MigrationResult, migrate_exit}

-- The commands, each with what it has come to: that of `serve`, the result of the migration, or the
-- monitor of the safety demo at the time at which it stops waiting.
pub data Command : Type 0 where
  serve : Result (Unit {0}) → Command
  migrate : MigrationResult → Command
  safety_demo : ℕ → Monitor → Command
  unknown : Command

-- The end of the safety demo: the status that is printed, and the monitor after `stop`.
unfoldable pub end_demo : ℕ → Monitor → Status × Monitor
unfolding Monitor.status Monitor.stop
end_demo now m = (status now m, Monitor.stop now m)

-- The exit code: that of `main`, or 1 when an exception leaves it.
unfoldable pub main : Command → ℕ
unfolding migrate_exit end_demo
main (serve (ok _)) = 0
main (serve (raise e)) = 1
main (migrate r) = migrate_exit r
main (safety_demo now m) = let (shown, m') = end_demo now m in if m'.estop_triggered then 0 else 1
main unknown = 1
