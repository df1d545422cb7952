-- ===== src/Scripts/Bag/Laws.antt =====
-- The end of scripts/validate_recorded_bag.py and of its processes.
use rosplus.Base.{ℕ, ◌<◌, String, Bool, List, arith}
use rosplus.Exec.Task.Ends.{
  Ends, Ends-done, Ends-fail, Ends-step, Ends-if, Ends-bind, Ends-then, first, first_bind,
}
use rosplus.Scripts.Lab.{Lab, Session, ping}
use rosplus.Scripts.Lab.Waiting.{IsTicking, Ticks, Ends-await_value}
use rosplus.Scripts.Lab.Cleanup.Laws.{IsReaping}
use rosplus.Scripts.Lab.Clean.{EndsClean, try_finally-terminate_all}
use rosplus.Scripts.Bag.{
  bag_timeout, master_round, play, bag_ros1, bag_ros2, bag_body, validate_bag,
}

module _ (L : Lab) (T : IsTicking L) where
  Ticks-master_round : (master : ℕ) → Ticks {L = L} (master_round L master)
  unfolding master_round
  Ticks-master_round master = record {
    at = λ s s' e.
        let w = (L.perform (ping "/bag_validation") s.world).1 in
        ground (
          arith,
          T.tick-perform (ping "/bag_validation") s.world,
          T.tick-sleep 50_000 w (omega arith),
        );
  }

  Ends-play :
      (node record_command : List String) (pause : ℕ) (play_command : List String)
      (message : String)
      → Ends (play L node record_command pause play_command message)
  unfolding play
  Ends-play node record_command pause play_command message =
      first_bind _ (λ recorder. first _ (first_bind _ (λ player. first _ (first _ (Ends-step _)))))

  Ends-bag_body :
      (fuel : ℕ) (ros2 : Bool) (node directory output : String)
      → bag_timeout < fuel
      → Ends (bag_body L fuel ros2 node directory output)
  unfolding bag_body bag_ros1 bag_ros2
  Ends-bag_body fuel ros2 node directory output enough =
      Ends-bind _ _
        (Ends-if ros2 _ _
          (first _ (
            first _ (
              Ends-then _ _ (Ends-play _ _ _ _ _)
                (first_bind _ (λ outputs. first _ (Ends-done _))))))
          (first_bind _ (λ master.
            Ends-then _ _ (Ends-await_value fuel bag_timeout _ _ enough (Ticks-master_round master))
              (first _ (
                first _ (
                  Ends-then _ _ (Ends-play _ _ _ _ _)
                    (first_bind _ (λ outputs. first _ (Ends-done _)))))))))
        (λ behavior. first _ (Ends-if behavior.passed _ _ (Ends-done tt) (Ends-fail _)))

-- Where time passes and processes can be killed and waited for, and with more fuel than there are
-- microseconds in the limit of a wait, the validation comes to its end, returning or raising; and
-- then none of the processes that it has listed is alive.
pub validate_bag-EndsClean :
    (L : Lab) (fuel : ℕ) (ros2 : Bool) (node directory output : String) (s : Session L)
    → IsTicking L
    → IsReaping L
    → bag_timeout < fuel
    → EndsClean L (validate_bag L fuel ros2 node directory output) s
unfolding validate_bag
validate_bag-EndsClean L fuel ros2 node directory output s T R enough =
    try_finally-terminate_all L R (bag_body L fuel ros2 node directory output) s
      (Ends-bag_body L T fuel ros2 node directory output enough)
