-- ===== src/Tests/ScriptsTests.antt =====
-- The verdicts of the scripts on small observations.
use rosplus.Exec.{Result}
use rosplus.Exec.{Result, ok}
use rosplus.Base.Text.{decimal, decimal_of}
use rosplus.Base.{arith, ◌≡◌, refl, true, false, none, some, [], ◌∷◌, ◌==◌, if◌then◌else◌}
use rosplus.Base.Int.{pos}
use Prim.Native.String.{count}
use rosplus.Scripts.Benchmark.{received}
use rosplus.Scripts.Benchmark.Sender.{payload}
use rosplus.Scripts.Benchmark.Sender.Laws.{received-payload}
use rosplus.Scripts.Lab.Counting.{EndsAll}
use rosplus.Scripts.Capture.Listed.{capture-EndsAll}
use rosplus.Scripts.Dds.Run.Listed.{benchmark-EndsAll}
use rosplus.Scripts.Fixture.{timer_parameter, validate_fixture}
use rosplus.Scripts.Fixture.Listed.{validate_fixture-EndsAll}
use rosplus.Scripts.Pairs.{tf, validate_pair}
use rosplus.Scripts.Pairs.Listed.{validate_pair-EndsAll}
use rosplus.Scripts.Capture.{capture}
use rosplus.Scripts.Dds.Run.{benchmark}
use rosplus.Tests.Workbench.{
  bench, fresh, bench-IsTicking, bench-IsReaping, bench-IsWorking, site, options, bench_counts,
}

validate_fixture-EndsAll_example :
    EndsAll bench bench_counts
      (validate_fixture bench 15_000_001 false timer_parameter "node.py" "out")
      fresh
validate_fixture-EndsAll_example =
    validate_fixture-EndsAll bench bench_counts 15_000_001 false timer_parameter "node.py" "out"
      fresh bench-IsTicking bench-IsReaping (omega arith) refl

validate_pair-EndsAll_example :
    EndsAll bench bench_counts (validate_pair bench 15_000_001 true tf "node.py" "out") fresh
validate_pair-EndsAll_example =
    validate_pair-EndsAll bench bench_counts 15_000_001 true tf "node.py" "out" fresh
      bench-IsTicking bench-IsReaping (omega arith) refl

capture-EndsAll_example :
    EndsAll bench bench_counts (capture bench 15_000_001 true "node.py" "out") fresh
capture-EndsAll_example =
    capture-EndsAll bench bench_counts 15_000_001 true "node.py" "out" fresh bench-IsTicking
      bench-IsReaping (omega arith) refl

benchmark-EndsAll_example : EndsAll bench bench_counts (benchmark bench site options) fresh
benchmark-EndsAll_example =
    benchmark-EndsAll bench bench_counts site options fresh bench-IsWorking bench-IsReaping refl

-- A message of 64 characters, sent at 5 and received at 9.
received-payload_example :
    (received
        (λ s. if s == "5" then some (pos 5) else none)
        9
        (payload 64 3 5)
        (record { count = 3; latencies = [] })
      ≡ ok (record { count = 4; latencies = pos 4 ∷ [] }))
    × (count (payload 64 3 5) ≡ 64)
unfolding decimal decimal_of
received-payload_example =
    received-payload (λ s. if s == "5" then some (pos 5) else none) 64 3 5 9
      (record { count = 3; latencies = [] }) refl (omega arith)
