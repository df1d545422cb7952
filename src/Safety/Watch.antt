-- ===== src/Safety/Watch.antt =====
-- The loop of `_watch` with nobody else at work: the clock moves by the sleeps alone, and `slack`
-- is what a sleep lasts beyond its period.
use rosplus.Base.{
  ℕ, zero, suc, ◌+◌, ◌-◌, ◌≤◌, ◌<◌, ◌≡◌, true, false, Option, none, some, arith, if◌then◌else◌,
  Bool-cases, inl, inr,
}
use rosplus.Safety.Monitor.{Monitor, watching, expired, trip, poll_period}

-- The loop from time `now`; `some (t, m)` is its end at time `t`, and `none` is the fuel's end.
unfoldable pub watch : ℕ → (ℕ → ℕ) → ℕ → Monitor → Option (ℕ × Monitor)
watch zero slack now m = none
watch (suc fuel) slack now m =
    let later = watch fuel slack (now + poll_period m + slack fuel) m in
    if watching m then (if expired now m then some (now, trip now m) else later) else some (now, m)

-- Each sleep ends at most `jitter` after its period.
abbrev pub Prompt : (ℕ → ℕ) → ℕ → Type 0
Prompt slack jitter = (n : ℕ) → slack n ≤ jitter

watch_step :
    (fuel : ℕ) (slack : ℕ → ℕ) (now : ℕ) (m : Monitor)
    → watching m ≡ true
    → expired now m ≡ false
    → watch (suc fuel) slack now m ≡ watch fuel slack (now + poll_period m + slack fuel) m
unfolding watch
watch_step fuel slack now m w e = rw (w, e)

watch_fire :
    (fuel : ℕ) (slack : ℕ → ℕ) (now : ℕ) (m : Monitor)
    → watching m ≡ true
    → expired now m ≡ true
    → watch (suc fuel) slack now m ≡ some (now, trip now m)
unfolding watch
watch_fire fuel slack now m w e = rw (w, e)

pub poll_period-pos : (m : Monitor) → 10 ≤ m.timeout → 0 < poll_period m
unfolding poll_period
poll_period-pos m h = omega arith

expired-lt : (now : ℕ) (m : Monitor) → expired now m ≡ true → m.last_heartbeat + m.timeout < now
unfolding expired
expired-lt now m e = ground arith

not_expired-le :
    (now : ℕ) (m : Monitor)
    → m.last_heartbeat ≤ now
    → expired now m ≡ false
    → now ≤ m.last_heartbeat + m.timeout
unfolding expired
not_expired-le now m h e = ground arith

-- The outcome that the monitor promises: it trips at `t`, after the deadline and within one more
-- sleep of it.
pub record Trips (m : Monitor) (jitter : ℕ) (r : Option (ℕ × Monitor)) : Type 0 where
  pub time : ℕ
  pub ends : r ≡ some (time, trip time m)
  pub not_early : m.last_heartbeat + m.timeout < time
  pub in_time : time ≤ m.last_heartbeat + m.timeout + poll_period m + jitter

Trips-loop :
    (fuel : ℕ) (slack : ℕ → ℕ) (jitter now : ℕ) (m : Monitor)
    → Prompt slack jitter
    → watching m ≡ true
    → 10 ≤ m.timeout
    → m.last_heartbeat ≤ now
    → now ≤ m.last_heartbeat + m.timeout + poll_period m + jitter
    → m.last_heartbeat + m.timeout + 1 - now < fuel
    → Trips m jitter (watch fuel slack now m)
Trips-loop zero slack jitter now m prompt w t h le enough = elim enough [ ]
Trips-loop (suc fuel) slack jitter now m prompt w t h le enough =
    elim (Bool-cases (expired now m)) [
      | inl e ↦ record {
        time = now;
        ends = watch_fire fuel slack now m w e;
        not_early = expired-lt now m e;
        in_time = le;
      }
      | inr e ↦
          let early = not_expired-le now m h e in
          let pos = poll_period-pos m t in
          let late = prompt fuel in
          rw (watch_step fuel slack now m w e) (
            Trips-loop fuel slack jitter (now + poll_period m + slack fuel) m prompt w t
              (omega arith) (omega arith) (omega arith))
    ]

-- The loop of a watching monitor, started at its last heartbeat and with no other since, trips: it
-- ends, not before the timeout has passed, and at most one sleep and `jitter` later. The timeout is
-- 10 microseconds at least, sleeps last at most `jitter` beyond their period, and the fuel exceeds
-- the timeout and one.
pub watch-Trips :
    (fuel : ℕ) (slack : ℕ → ℕ) (jitter : ℕ) (m : Monitor)
    → Prompt slack jitter
    → watching m ≡ true
    → 10 ≤ m.timeout
    → m.timeout + 1 < fuel
    → Trips m jitter (watch fuel slack m.last_heartbeat m)
watch-Trips fuel slack jitter m prompt w t enough =
    Trips-loop fuel slack jitter m.last_heartbeat m prompt w t (omega arith) (omega arith)
      (omega arith)
