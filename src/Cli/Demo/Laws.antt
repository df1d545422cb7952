-- ===== src/Cli/Demo/Laws.antt =====
-- How the safety demo ends.
use rosplus.Base.{
  ℕ, zero, suc, ◌+◌, ◌-◌, ◌*◌, ◌≤◌, ◌<◌, ◌≡◌, ◌∙◌, ap, refl, true, false, Option, none, some, List,
  arith, leb, ltb, Bool-cases, ◌⊎◌, inl, inr,
}
use rosplus.Exec.{ok}
use rosplus.Safety.Gpio
use rosplus.Safety.Gpio.{Entry}
use rosplus.Safety.Monitor
use rosplus.Safety.Monitor.{
  Monitor, start, heartbeat, watching, expired, trip, watch_round, poll_period,
}
use rosplus.Safety.Watch.{Prompt, poll_period-pos}
use rosplus.Cli.{safety_demo, main}
use rosplus.Cli.Demo.{Options, Phase, beating, waiting, Demo, caller, checker, rounds, demo}

-- The time at which the demo is over.
abbrev pub horizon : Options → ℕ → ℕ → ℕ
horizon o jitter now =
    now + o.duration + o.heartbeat_ms * 1000 + o.timeout_ms * 1000 + 3 * jitter + 201_000

module _ (o : Options) (jitter bound : ℕ) where
  -- The deadlines of the caller.
  abbrev OnTime : Demo → Phase → Type 0
  OnTime t (beating end) =
      (t.next_step ≤ end + o.heartbeat_ms * 1000 + jitter)
      × (t.monitor.last_heartbeat ≤ t.next_step)
      × (end + o.heartbeat_ms * 1000 + o.timeout_ms * 1000 + 3 * jitter + 201_000 ≤ bound)
  OnTime t (waiting deadline) =
      (t.monitor.last_heartbeat + o.timeout_ms * 1000 + 200_000 ≤ deadline)
      × (t.next_step ≤ bound)
      × (deadline + 1000 + jitter ≤ bound)

  -- The monitor has tripped, or the thread looks at it soon after its deadline.
  abbrev Guarded : Monitor → ℕ → Type 0
  Guarded m next_check =
      (m.estop_triggered ≡ true)
      ⊎ ((m.estop_triggered ≡ false)
          × (m.running ≡ true)
          × (next_check ≤ m.last_heartbeat + m.timeout + 5000 + jitter))

  record Inv (t : Demo) : Type 0 where
    limit : t.monitor.timeout ≡ o.timeout_ms * 1000
    guarded : Guarded t.monitor t.next_check
    on_time : OnTime t t.phase

  abbrev weight : Phase → ℕ
  weight (beating end) = 1
  weight (waiting deadline) = 0

  abbrev measure : Demo → ℕ
  measure t = (bound - t.next_step) + (bound - t.next_check) + weight t.phase

  -- What a round of the caller leaves.
  abbrev Left : Demo → Option Demo → Type 0
  Left t none = t.monitor.estop_triggered ≡ true
  Left t (some t') = Inv t' × (measure t' < measure t)

  heartbeat-Guarded :
      (m : Monitor) (now next_check : ℕ)
      → m.last_heartbeat ≤ now
      → Guarded m next_check
      → Guarded (heartbeat now m) next_check
  unfolding heartbeat
  heartbeat-Guarded m now next_check h (inl e) = inl (ground arith)
  heartbeat-Guarded m now next_check h (inr (e, r, c)) = inr (ground arith)

  watch_round-kept :
      (now : ℕ) (m : Monitor)
      → ((watch_round now m).timeout ≡ m.timeout)
        × ((watch_round now m).last_heartbeat ≡ m.last_heartbeat)
  unfolding watch_round trip
  watch_round-kept now m = (ground arith, ground arith)

  watch_round-Guarded :
      (now late : ℕ) (m : Monitor)
      → late ≤ jitter
      → Guarded m now
      → Guarded (watch_round now m) (now + poll_period m + late)
  unfolding watch_round watching expired trip poll_period
  watch_round-Guarded now late m prompt (inl e) = inl (rw (watch_round, e) (ground arith))
  watch_round-Guarded now late m prompt (inr (e, r, c)) = elim (Bool-cases (expired now m)) [
    | inl old ↦ inl (rw (watch_round, e, r, old) refl)
    | inr young ↦ inr (ground arith)
  ]

  checker-OnTime :
      (late : ℕ) (t : Demo) (p : Phase)
      → OnTime t p
      → OnTime (checker late t) p × (t.next_step ≤ bound)
  unfolding checker
  checker-OnTime late t (beating end) on = ground (arith, watch_round-kept t.next_check t.monitor)
  checker-OnTime late t (waiting deadline) on =
      ground (arith, watch_round-kept t.next_check t.monitor)

  module _ (pos : 0 < o.heartbeat_ms) (long : 5 ≤ o.timeout_ms) (few : jitter ≤ 190_000) (late : ℕ)
      (prompt : late ≤ jitter) where
    caller-Left :
        (t : Demo) (p : Phase)
        → t.phase ≡ p
        → t.monitor.timeout ≡ o.timeout_ms * 1000
        → Guarded t.monitor t.next_check
        → OnTime t p
        → t.next_step ≤ t.next_check
        → Left t (caller o late t p)
    unfolding caller heartbeat
    caller-Left t (beating end) same limit g on first = elim (Bool-cases (ltb t.next_step end)) [
      | inl early ↦ rw early (
        record {
          limit = ground arith;
          guarded = heartbeat-Guarded t.monitor t.next_step t.next_check on.1 g;
          on_time = rw same (ground arith, ground arith, ground arith);
        },
        ground arith,
      )
      | inr done ↦ rw done (
        record { limit = limit; guarded = g; on_time = (omega arith, omega arith, omega arith) },
        rw same (ground arith),
      )
    ]
    caller-Left t (waiting deadline) same limit (inl e) on first = rw e refl
    caller-Left t (waiting deadline) same limit (inr (e, r, c)) on first =
        let early : ltb t.next_step deadline ≡ true = ground arith in
        rw (e, early)
          (
            record {
              limit = limit;
              guarded = inr (refl, r, c);
              on_time = rw same (omega arith, ground arith, omega arith);
            },
            ground arith,
          )

    checker-Inv :
        (t : Demo)
        → Inv t
        → t.next_check < t.next_step
        → Inv (checker late t) × (measure (checker late t) < measure t)
    unfolding checker
    checker-Inv t v first =
        let on = checker-OnTime late t t.phase v.on_time in
        let kept = watch_round-kept t.next_check t.monitor in
        let pos = poll_period-pos t.monitor (ground (arith, v.limit)) in
        (
          record {
            limit = kept.0 ∙ v.limit;
            guarded = watch_round-Guarded t.next_check late t.monitor prompt v.guarded;
            on_time = on.0;
          },
          omega arith,
        )

-- The rounds end, with a monitor that has tripped.
record Ends (r : Option (ℕ × Monitor)) : Type 0 where
  time : ℕ
  monitor : Monitor
  ends : r ≡ some (time, monitor)
  tripped : monitor.estop_triggered ≡ true

module _ (o : Options) (jitter bound : ℕ) (slack : ℕ → ℕ) (pos : 0 < o.heartbeat_ms)
    (long : 5 ≤ o.timeout_ms) (few : jitter ≤ 190_000) (prompt : Prompt slack jitter) where
  caller-Ends :
      (fuel : ℕ) (t : Demo) (r : Option Demo)
      → ((t' : Demo)
          → Inv o jitter bound t'
          → measure o jitter bound t' < fuel
          → Ends (rounds o fuel slack t'))
      → Left o jitter bound t r
      → measure o jitter bound t < suc fuel
      → Ends (elim r [ none ↦ some (t.next_step, t.monitor) | some t' ↦ rounds o fuel slack t' ])
  caller-Ends fuel t none again left enough = record {
    time = t.next_step;
    monitor = t.monitor;
    ends = refl;
    tripped = left;
  }
  caller-Ends fuel t (some t') again left enough = again t' left.0 (omega arith)

  rounds-Ends :
      (fuel : ℕ) (t : Demo)
      → Inv o jitter bound t
      → measure o jitter bound t < fuel
      → Ends (rounds o fuel slack t)
  unfolding rounds
  rounds-Ends zero t v enough = elim enough [ ]
  rounds-Ends (suc fuel) t v enough = elim (Bool-cases (leb t.next_step t.next_check)) [
    | inl first ↦
        rw (rounds, first)
          (caller-Ends fuel t (caller o (slack fuel) t t.phase) (rounds-Ends fuel)
            (caller-Left o jitter bound pos long few (slack fuel) (prompt fuel) t t.phase refl
              v.limit v.guarded v.on_time (ground arith))
            enough)
    | inr after ↦
        let next =
          checker-Inv o jitter bound pos long few (slack fuel) (prompt fuel) t v (ground arith) in
        rw (rounds, after) (rounds-Ends fuel (checker (slack fuel) t) next.0 (omega arith))
  ]

-- The monitor that the demo starts.
abbrev begin : Options → List Entry → ℕ → ℕ → Demo
begin o lines now first_check = record {
  monitor = start now (record {
    timeout = o.timeout_ms * 1000;
    gpio = Gpio.new lines now;
    last_heartbeat = 0;
    estop_triggered = false;
    running = false;
    thread = false;
  });
  phase = beating (now + o.duration);
  next_step = now;
  next_check = first_check;
}

begin-Inv :
    (o : Options) (lines : List Entry) (jitter now first_check : ℕ)
    → first_check ≤ now + jitter
    → Inv o jitter (horizon o jitter now) (begin o lines now first_check)
unfolding start
begin-Inv o lines jitter now first_check soon = record {
  limit = refl;
  guarded = inr (refl, refl, omega arith);
  on_time = (omega arith, omega arith, omega arith);
}

demo-begin :
    (o : Options) (lines : List Entry) (fuel : ℕ) (slack : ℕ → ℕ) (now first_check : ℕ)
    → 5 ≤ o.timeout_ms
    → demo o lines fuel slack now first_check
      ≡ ok (rounds o fuel slack (begin o lines now first_check))
unfolding demo Monitor.new
demo-begin o lines fuel slack now first_check long =
    let fine : ltb o.timeout_ms 5 ≡ false = ground arith in rw (demo, fine) refl

-- How the demo ends: the time and the monitor at the end of its second loop.
pub record ExitsZero (o : Options) (lines : List Entry) (fuel : ℕ) (slack : ℕ → ℕ)
    (now first_check : ℕ) : Type 0 where
  pub time : ℕ
  pub monitor : Monitor
  pub ends : demo o lines fuel slack now first_check ≡ ok (some (time, monitor))
  pub code : main (safety_demo time monitor) ≡ 0

-- The safety demo ends and exits with 0: its monitor trips before the second loop gives up. The
-- timeout is 5 milliseconds or more, the period of the heartbeats is not 0, the thread runs first at
-- most `jitter` after the start, and each sleep ends at most `jitter` after its period, which is at
-- most 190 milliseconds. The fuel exceeds twice the time that the demo may take, and one.
pub demo-ExitsZero :
    (o : Options) (lines : List Entry) (fuel : ℕ) (slack : ℕ → ℕ) (jitter now first_check : ℕ)
    → 5 ≤ o.timeout_ms
    → 0 < o.heartbeat_ms
    → Prompt slack jitter
    → jitter ≤ 190_000
    → now ≤ first_check
    → first_check ≤ now + jitter
    → 2 * (horizon o jitter now - now) + 1 < fuel
    → ExitsZero o lines fuel slack now first_check
unfolding main
demo-ExitsZero o lines fuel slack jitter now first_check long pos prompt few begun soon enough =
    let e =
      rounds-Ends o jitter (horizon o jitter now) slack pos long few prompt fuel
        (begin o lines now first_check) (begin-Inv o lines jitter now first_check soon)
        (omega arith) in
    record {
      time = e.time;
      monitor = e.monitor;
      ends = demo-begin o lines fuel slack now first_check long ∙ ap ok e.ends;
      code = ground (arith, e.tripped);
    }
