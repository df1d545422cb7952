-- ===== src/Tests/PublisherTests.antt =====
-- The publisher of the benchmark on the bench, where what is published is heard.
use rosplus.Base.{◌+◌, ◌≤◌, ◌≡◌, refl, true, false, some, ◌++◌, [], ◌∷◌, arith}
use rosplus.Exec.{Result, ok}
use rosplus.Json.{Json, null}
use rosplus.Scripts.Lab.{Lab, Call, spin_once, publish}
use rosplus.Scripts.Lab.Waiting.{IsTicking}
use rosplus.Scripts.Benchmark.Publisher.{Outlet, Sender, Options, publisher}
use rosplus.Scripts.Benchmark.Publisher.Laws.{Topic, Outcome, is_publish, publisher-Outcome}
use rosplus.Tests.Workbench.{Bench, bench, fresh, bench-IsTicking}

abbrev answered : Call → Bench → Result Json × Bench
answered (publish j) s = (ok null, record s { heard = s.heard ++ j ∷ [] })
answered spin_once s = (ok null, record s { clock = s.clock + 1000 })
answered _ s = (ok null, s)

abbrev station : Lab
station = record bench { perform = answered }

answered-later : (c : Call) (s : Bench) → s.clock ≤ (answered c s).1.clock
answered-later (publish j) s = omega arith
answered-later spin_once s = omega arith
answered-later _ s = omega arith

station-IsTicking : IsTicking station
station-IsTicking = record {
  tick-sleep = bench-IsTicking.tick-sleep;
  tick-perform = answered-later;
  tick-spin = λ s. omega arith;
}

heard-publish :
    (message j : Json) (w w' : Bench)
    → answered (publish message) w ≡ (ok j, w')
    → w'.heard ≡ w.heard ++ message ∷ []
heard-publish message j w w' h = ground arith

heard-other : (c : Call) (w : Bench) → is_publish c ≡ false → (answered c w).1.heard ≡ w.heard
heard-other (publish j) w h = absurd (ground arith)
heard-other spin_once w h = refl
heard-other _ w h = refl

abbrev outlet : Outlet station
outlet = record {
  set_fifo = λ w. (ok tt, w);
  due = λ w. true;
  stamp = λ w. w.clock;
  create_timer = λ frequency w. (ok tt, w);
  print = λ j w. (ok tt, w);
}

abbrev topic : Topic station outlet
topic = record {
  posted = λ s. s.heard;
  posted-publish = heard-publish;
  posted-perform = heard-other;
  posted-sleep = λ n w. refl;
  posted-set_fifo = λ w. refl;
  posted-create_timer = λ frequency w. refl;
  posted-print = λ j w. refl;
}

abbrev options : Options
options = record { messages = 2; size = 30; frequency = 100; limit = 30_000_000 }

abbrev idle : Sender station
idle = record { world = fresh.world; count = 0 }

publisher-Outcome_example :
    (r : Result (Unit {0}) × Sender station) × (publisher station outlet 30_000_001 options true
        idle
      ≡ some r)
    × Outcome station outlet topic options idle r
publisher-Outcome_example =
    publisher-Outcome station outlet topic station-IsTicking (λ frequency w. omega arith) 30_000_001
      options true idle (omega arith) refl
