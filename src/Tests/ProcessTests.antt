-- ===== src/Tests/ProcessTests.antt =====
-- The supervisor over the workspace "w" in memory.
use rosplus.Base.{◌≡◌, arith, refl, false, [], ◌∷◌}
use rosplus.Base.Dict.{get}
use rosplus.Paths.{child, path_beq, parents, member}
use rosplus.Disk.Memory.{memory, normalize}
use rosplus.Workspace.Files.{safe_path}
use rosplus.Process.{Supervisor, update}
use rosplus.Process.Table.{exited, process_at}
use rosplus.Models.{Workspace}
use rosplus.Process.Build.{lock, unlock, settle}
use rosplus.Process.Build.Laws.{Outcome, build-Outcome}
use rosplus.Process.Build.Race.{
  asking, inside, left, refused, see_free, see_locked, take_lock, write_verdict, leave, this, that,
  Reach, here, next, many,
}
use rosplus.Process.Build.Race.Laws.{builders-Race}
use rosplus.Process.Run.{RunReport, run, mode_of}
use rosplus.Process.Run.Laws as Run
use rosplus.Process.Output.{capture}
use rosplus.Process.Output.Laws.{Captured, capture-Captured}
use rosplus.Process.Stop.{stop, stop_all, stop_one, capture_exit}
use rosplus.Process.Stop.Laws.{AllDead, stop-AllDead}
use rosplus.Process.Stop.Laws.Races.{Orphaned, stale_capture}
use rosplus.Tests.Data.{demo, supervisor, busy, launch, compile, on_signal}

abbrev report : RunReport
report = record { node_name = "a"; pid = 7; mode = "legacy"; log_url = "/api/v1/workspace/w/logs" }

abbrev running_a : Supervisor memory
running_a = (run memory launch "w" "a.py" "auto" supervisor).1

run-Outcome_example :
    Run.Outcome memory launch "w" "a.py" "auto" supervisor
      (run memory launch "w" "a.py" "auto" supervisor)
run-Outcome_example = Run.run-Outcome memory launch "w" "a.py" "auto" supervisor

build-Outcome_example : Outcome memory compile "t1" "w" supervisor demo
unfolding get
build-Outcome_example = build-Outcome memory compile "t1" "w" supervisor refl refl

abbrev quiet : Supervisor memory
quiet = (stop memory "t1" on_signal "w" "" busy).1

stop-AllDead_example : AllDead memory "t1" on_signal "w" ("a" ∷ []) quiet
unfolding stop get stop_all stop_one process_at
stop-AllDead_example = stop-AllDead memory "t1" on_signal "w" "" busy refl refl

stale_capture_example :
    Orphaned "w" report (update memory "w" (capture_exit "t1" "a" (exited 0)) running_a)
unfolding run get safe_path path_beq normalize child member parents mode_of process_at
stale_capture_example =
    stale_capture memory launch "w" "a.py" "auto" "t1" (exited 0) supervisor refl

-- Two lines of output, and the exit of the node.
capture-Captured_example :
    Captured "a"
      (("t1", "one \n") ∷ ("t2", "two") ∷ [])
      "t3"
      (exited 0)
      demo
      (capture "a" (("t1", "one \n") ∷ ("t2", "two") ∷ []) "t3" (exited 0) demo)
capture-Captured_example =
    capture-Captured "a" (("t1", "one \n") ∷ ("t2", "two") ∷ []) "t3" (exited 0) demo (omega arith)

-- One call builds while another is refused.
abbrev one_builds :
    Reach demo
      (many 2 asking)
      (unlock (settle "t1" (record { built = 1; errors = [] }) (lock demo)))
      (left ∷ refused ∷ [])
one_builds =
    next
      (next
        (next
          (next (next here (this (asking ∷ []) (see_free demo refl)))
            (this (asking ∷ []) (take_lock demo)))
          (that inside (this [] (see_locked (lock demo) refl))))
        (this (refused ∷ []) (write_verdict (lock demo) "t1" (record { built = 1; errors = [] }))))
      (this (refused ∷ []) (leave (settle "t1" (record { built = 1; errors = [] }) (lock demo))))

builders-Race_example :
    (false ≡ false)
    × ((u : Workspace) × Reach
          (unlock (settle "t1" (record { built = 1; errors = [] }) (lock demo)))
          (left ∷ refused ∷ asking ∷ asking ∷ [])
          u
          (left ∷ refused ∷ inside ∷ inside ∷ []))
builders-Race_example = builders-Race 2 2 demo refl one_builds refl
