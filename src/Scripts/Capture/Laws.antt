-- ===== src/Scripts/Capture/Laws.antt =====
-- The end of scripts/capture_migration.py and of its processes.
use rosplus.Base.{ℕ, ◌<◌, String, Bool, true, false, arith, ltb, length}
use rosplus.Exec.Task.Ends.{
  Ends, Ends-done, Ends-fail, Ends-step, Ends-if, Ends-then, first, first_bind,
}
use rosplus.Scripts.Lab.{Lab, Session, timeout}
use rosplus.Scripts.Lab.Waiting.{IsTicking, Ticks, Ends-wait_while}
use rosplus.Scripts.Lab.Cleanup.Laws.{IsReaping}
use rosplus.Scripts.Lab.Clean.{EndsClean, try_finally-clean}
use rosplus.Scripts.Capture.{prepare, listen, few, capture_body, capture}

module _ (L : Lab) (T : IsTicking L) where
  Ticks-listen : (ros2 : Bool) (child : ℕ) → Ticks {L = L} (listen L ros2 child)
  unfolding listen
  Ticks-listen false child = record {
    at = λ s s' e. ground (arith, T.tick-sleep 10_000 s.world (omega arith));
  }
  Ticks-listen true child = record { at = λ s s' e. ground (arith, T.tick-spin s.world) }

  Ends-prepare : (ros2 : Bool) → Ends (prepare L ros2)
  unfolding prepare
  Ends-prepare false = first _ (first _ (first _ (Ends-step _)))
  Ends-prepare true = first _ (first _ (Ends-step _))

  Ends-capture_body :
      (fuel : ℕ) (ros2 : Bool) (node output : String)
      → timeout < fuel
      → Ends (capture_body L fuel ros2 node output)
  unfolding capture_body
  Ends-capture_body fuel ros2 node output enough = Ends-then _ _ (Ends-prepare ros2) (
      first_bind _ (λ child.
        Ends-then _ _
          (Ends-wait_while fuel timeout (few L) (listen L ros2 child) enough
            (Ticks-listen ros2 child))
          (first_bind _ (λ messages.
            Ends-then _ _ (Ends-if (ltb (length messages) 10) _ _ (Ends-fail _) (Ends-done tt))
              (first _ (Ends-step _))))))

-- Where time passes and processes can be killed and waited for, and with more fuel than there are
-- microseconds in the limit of a wait, the capture comes to its end, returning or raising; and then
-- none of the processes that it started is alive.
pub capture-EndsClean :
    (L : Lab) (fuel : ℕ) (ros2 : Bool) (node output : String) (s : Session L)
    → IsTicking L
    → IsReaping L
    → timeout < fuel
    → EndsClean L (capture L fuel ros2 node output) s
unfolding capture
capture-EndsClean L fuel ros2 node output s T R enough =
    try_finally-clean L R (capture_body L fuel ros2 node output) s
      (Ends-capture_body L T fuel ros2 node output enough)
