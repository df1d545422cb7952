-- ===== src/Scripts/Benchmark/Subscriber/Laws.antt =====
-- The end of the subscriber of scripts/stock_benchmark.py, and its tally.
use rosplus.Base.{ℕ, ◌≤◌, ◌≡◌, Bool, true, length}
use rosplus.Exec.{Result, ok, raise}
use rosplus.Exec.Task.Ends.{Ends}
use rosplus.Scripts.Lab.{Lab}
use rosplus.Scripts.Benchmark.Laws.{InOrder}
use rosplus.Scripts.Benchmark.{Scheduling, Tally, summary}
use rosplus.Scripts.Benchmark.Subscriber.{Post, Listener, close_subscriber}

-- Every sample belongs to a message that was counted.
abbrev Sampled : Tally → Type 0
Sampled t = length t.latencies ≤ t.count

module _ (L : Lab) (P : Post L) where
  -- A tally with all messages.
  abbrev pub Complete : ℕ → Tally → Type 0
  Complete messages v =
      (messages ≤ v.count) × (length v.latencies ≤ v.count) × InOrder (summary messages v)

  -- The state is what saving the summary of the tally makes of another, with the same tally.
  abbrev pub Saved : ℕ → Listener L → Type 0
  Saved messages t =
      (scheduling : Scheduling) × (w : L.State) × (P.save scheduling (summary messages t.tally) w
        ≡ (ok tt, t.world))

  -- What a subscriber that returned in the state `t` has counted and written: if it was asked for a
  -- report, the last thing before its end was to save the summary of its tally.
  abbrev pub Received : ℕ → Bool → Listener L → Type 0
  Received messages reported t =
      Complete messages t.tally
      × ((u : Listener L) × (close_subscriber L P u ≡ (ok tt, t))
          × (u.tally ≡ t.tally)
          × (reported ≡ true → Saved messages u))

  -- What a run of the subscriber came to.
  abbrev pub Outcome : ℕ → Bool → Result (Unit {0}) × Listener L → Type 0
  Outcome messages reported (ok _, t) = Received messages reported t
  Outcome messages reported (raise e, t) = Unit
