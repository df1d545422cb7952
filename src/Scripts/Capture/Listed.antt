-- ===== src/Scripts/Capture/Listed.antt =====
-- The list `processes` of scripts/capture_migration.py.
use rosplus.Base.{ℕ, zero, suc, ◌<◌, String, Bool, true, false, inl, inr, Bool-cases, Option-cases}
use rosplus.Exec.{Result-cases}
use rosplus.Exec.Task.Keeps.{Steady, Keeps, Steady-proceed, Steady-pure}
use rosplus.Scripts.Lab.{Lab, Session, timeout, is_os_error, ping, signal_shutdown, spin_once}
use rosplus.Scripts.Lab.Waiting.{IsTicking}
use rosplus.Scripts.Lab.Cleanup.Laws.{IsReaping}
use rosplus.Scripts.Lab.Counting.{
  Counting, Listed, EndsAll, ends_all, listed_rules, Steady-call, Steady-sleep, Steady-end_all,
}
use rosplus.Scripts.Fixture.Listed.{Steady-close_ros2}
use rosplus.Scripts.Capture.{
  find_master, prepare, child_alive, listen, close, capture_body, capture,
}
use rosplus.Scripts.Capture.Laws.{capture-EndsClean}

module _ (L : Lab) (C : Counting L) where
  Steady-find_master : (rounds : ℕ) → Steady (Listed L C) (find_master L rounds)
  unfolding find_master
  Steady-find_master zero = Steady-pure tt
  Steady-find_master (suc rounds) = record {
    at = λ s h.
        let kept = (Steady-call L C (ping "/rosplus_validation")).at s h in
        elim (Result-cases (L.perform (ping "/rosplus_validation") s.world).0) [
          | inl (j, fine) ↦ rw (find_master, fine) kept
          | inr (e, failed) ↦ elim (Bool-cases (is_os_error e)) [
            | inr other ↦ rw (find_master, failed, other) kept
            | inl refused ↦
                rw (find_master, failed, refused)
                  ((Steady-proceed _ _ (Steady-sleep L C 50_000)
                      (λ _. Steady-find_master rounds)).at
                    _ kept)
          ]
        ];
  }

  Keeps-prepare : (ros2 : Bool) → Keeps (Listed L C) (prepare L ros2)
  unfolding prepare
  Keeps-prepare true = search listed_rules depth 9
  Keeps-prepare false = search (listed_rules, Steady-find_master) depth 9

  Steady-child_alive : (child : ℕ) → Steady (Listed L C) (child_alive L child)
  unfolding child_alive
  Steady-child_alive child = record {
    at = λ s h. elim (Option-cases (L.poll child s.world)) [
      | inl live ↦ rw (child_alive, live) h
      | inr (code, over) ↦ rw (child_alive, over) h
    ];
  }

  Steady-listen : (ros2 : Bool) (child : ℕ) → Steady (Listed L C) (listen L ros2 child)
  unfolding listen
  Steady-listen false child =
      Steady-proceed _ _ (Steady-sleep L C 10_000) (λ _. Steady-child_alive child)
  Steady-listen true child =
      Steady-proceed _ _ (Steady-call L C spin_once) (λ _. Steady-child_alive child)

  Steady-close : (ros2 : Bool) → Steady (Listed L C) (close L ros2)
  Steady-close true = Steady-close_ros2 L C
  Steady-close false =
      Steady-proceed _ _ (Steady-call L C (signal_shutdown "validation complete"))
        (λ _. Steady-pure tt)

  Keeps-capture :
      (fuel : ℕ) (ros2 : Bool) (node output : String)
      → Keeps (Listed L C) (capture L fuel ros2 node output)
  unfolding capture capture_body
  Keeps-capture fuel ros2 node output =
      search (listed_rules, Keeps-prepare, Steady-listen, Steady-close, Steady-end_all) depth 14

-- Where time passes and processes can be killed and waited for, with more fuel than there are
-- microseconds in the limit of a wait, and if the list `processes` has at first the processes that
-- were started, the capture comes to its end, returning or raising; and then none of the processes
-- that `Popen` has started for it is alive.
pub capture-EndsAll :
    (L : Lab) (C : Counting L) (fuel : ℕ) (ros2 : Bool) (node output : String) (s : Session L)
    → IsTicking L
    → IsReaping L
    → timeout < fuel
    → Listed L C s
    → EndsAll L C (capture L fuel ros2 node output) s
capture-EndsAll L C fuel ros2 node output s T R enough listed =
    ends_all L C _ s (capture-EndsClean L fuel ros2 node output s T R enough)
      (Keeps-capture L C fuel ros2 node output) listed
