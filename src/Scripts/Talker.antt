-- ===== src/Scripts/Talker.antt =====
-- scripts/check_ros2.py: a stock talker and a stock listener are run until the listener hears.
pub mod Laws
use rosplus.Base.{
  ℕ, String, ◌<>◌, Bool, true, false, Option, none, some, List, [], ◌∷◌, any, if◌then◌else◌,
}
use rosplus.Base.Text.{contains}
use rosplus.Exec.{Result, ok, raise, Act, proceed}
use rosplus.Exec.Task.{Task, step, ◌>>◌, try_finally}
use rosplus.Process.Table.{ExitCode}
use rosplus.Scripts.Lab.{Lab, Session, runtime_error, timeout, sleep, launch}
use rosplus.Scripts.Lab.Await.{await_value}
use rosplus.Scripts.Lab.Cleanup.{end_all}

module _ (L : Lab) where
  abbrev pub heard_talker : L.State → Bool
  heard_talker w = contains "I heard" (L.log w)

  -- `p.poll() is not None`
  abbrev pub has_exited : L.State → ℕ → Bool
  has_exited w pid = elim (L.poll pid w) [ none ↦ false | some code ↦ true ]

  -- A round of the loop, after its sleep.
  unfoldable pub look : Act (Session L) (Option (Unit {0}))
  look s =
      if heard_talker s.world
      then (ok (some tt), s)
      else if any (has_exited s.world) s.processes
      then (raise (runtime_error ("ROS process exited: " <> L.log s.world)), s)
      else (ok none, s)

  unfoldable pub look_round : Act (Session L) (Option (Unit {0}))
  unfolding look
  look_round s = proceed (sleep L 200_000 s) (λ _. look)

  unfoldable pub check_body : ℕ → Task (Session L) (Unit {0})
  check_body fuel = do
    step (launch L ("ros2" ∷ "run" ∷ "demo_nodes_py" ∷ "listener" ∷ []))
    step (launch L ("ros2" ∷ "run" ∷ "demo_nodes_cpp" ∷ "talker" ∷ []))
    await_value L fuel timeout look_round "no DDS message received within 15 seconds"

  unfoldable pub check_ros2 : ℕ → Task (Session L) (Unit {0})
  check_ros2 fuel = try_finally (check_body fuel) (end_all L 3_000_000 (λ ps. ps))
