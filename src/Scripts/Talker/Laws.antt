-- ===== src/Scripts/Talker/Laws.antt =====
-- The end of scripts/check_ros2.py and of its processes, and what its success depends on.
use rosplus.Base.{ℕ, ◌<◌, ◌≡◌, true, some, arith}
use rosplus.Exec.{ok}
use rosplus.Exec.Task.Ends.{first}
use rosplus.Exec.Task.Returns.{then-returns, try_finally-returns}
use rosplus.Scripts.Lab.{Lab, Session, timeout}
use rosplus.Scripts.Lab.Waiting.{IsTicking, Ticks, Ends-await_value, await_value-returns}
use rosplus.Scripts.Lab.Cleanup.Laws.{IsReaping}
use rosplus.Scripts.Lab.Clean.{EndsClean, try_finally-end_all}
use rosplus.Scripts.Talker.{heard_talker, look, look_round, check_body, check_ros2}

module _ (L : Lab) where
  Ticks-look_round : IsTicking L → Ticks {L = L} (look_round L)
  unfolding look_round
  Ticks-look_round T = record {
    at = λ s s' e. ground (arith, T.tick-sleep 200_000 s.world (omega arith));
  }

  look_round-heard :
      (s t : Session L) → look_round L s ≡ (ok (some tt), t) → heard_talker L t.world ≡ true
  unfolding look_round look
  look_round-heard s t e = ground arith

-- Where time passes and processes can be killed and waited for, and with more fuel than there are
-- microseconds in the limit of the wait, the check comes to its end, returning or raising; and then
-- neither the talker nor the listener is alive.
pub check_ros2-EndsClean :
    (L : Lab) (fuel : ℕ) (s : Session L)
    → IsTicking L
    → IsReaping L
    → timeout < fuel
    → EndsClean L (check_ros2 L fuel) s
unfolding check_ros2 check_body
check_ros2-EndsClean L fuel s T R enough =
    try_finally-end_all L R 3_000_000 (check_body L fuel) s
      (first _ (first _ (Ends-await_value fuel timeout _ _ enough (Ticks-look_round L T))))

-- A check that returns saw, before it ended the processes, a log in which the listener heard.
pub check_ros2-heard :
    (L : Lab) (fuel : ℕ) (s : Session L) {s' : Session L}
    → check_ros2 L fuel s ≡ some (ok tt, s')
    → (t : Session L) × (heard_talker L t.world ≡ true)
unfolding check_ros2 check_body
check_ros2-heard L fuel s h =
    let (s1, h1) = try_finally-returns _ _ s h in
    let (_, s2, _, h2) = then-returns _ _ s h1 in
    let (_, s3, _, h3) = then-returns _ _ s2 h2 in
    let (s4, left) = await_value-returns fuel timeout _ _ s3 tt s1 h3 in
    (s1, look_round-heard L s4 s1 left)
