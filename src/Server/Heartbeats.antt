-- ===== src/Server/Heartbeats.antt =====
-- The two threads of an application of src/rosplus/server.py as time goes by: `_heartbeat_loop`, and
-- `_watch` of src/rosplus/safety.py. Each runs when its sleep is over, the earlier one first.
use rosplus.Base.{
  ℕ, ◌+◌, ◌≤◌, ◌<◌, ◌≡◌, refl, sym, subst, true, false, List, [], ◌∷◌, arith, leb, if◌then◌else◌,
  Bool-cases, inl, inr,
}
use rosplus.Exec.{ok, Result-cases}
use rosplus.Models.{FilePath}
use rosplus.Disk.{Disk}
use rosplus.Base.{String}
use rosplus.Safety.Gpio.{Gpio, Level, high, Entry, set}
use rosplus.Safety.Gpio
use rosplus.Safety.Monitor
use rosplus.Safety.Monitor.{Monitor, start, heartbeat, watching, expired, watch_round, poll_period}
use rosplus.Workspace.{new_manager}
use rosplus.Server.{Application}
use rosplus.Server.Lifecycle.{new_application, beat}

-- The application, and when its threads run next.
pub record Threads (D : Disk) : Type 0 where
  pub app : Application D
  pub next_beat : ℕ
  pub next_check : ℕ

module _ (D : Disk) where
  -- A round of `_watch`, after which it sleeps.
  unfoldable pub check : ℕ → Application D → Application D
  unfolding watch_round
  check now app = record app { safety = watch_round now app.safety }

  -- The next round of either thread; its sleep ends `late` after its period.
  unfoldable pub round : ℕ → Threads D → Threads D
  unfolding check beat
  round late t =
      if leb t.next_beat t.next_check
      then record t { app = beat D t.next_beat t.app; next_beat = t.next_beat + 50_000 + late }
      else record t {
        app = check t.next_check t.app;
        next_check = t.next_check + poll_period t.app.safety + late;
      }

  unfoldable pub rounds : List ℕ → Threads D → Threads D
  rounds [] t = t
  rounds (late ∷ later) t = rounds later (round late t)

-- Each is at most 200 milliseconds.
abbrev pub Prompt : List ℕ → Type 0
Prompt [] = Unit
Prompt (late ∷ later) = (late ≤ 200_000) × Prompt later

-- The monitor is armed: the pin is high, and it watches.
pub record Armed (m : Monitor) : Type 0 where
  pub pin : m.gpio.state ≡ high
  pub untripped : m.estop_triggered ≡ false
  pub running : m.running ≡ true

-- An armed monitor whose next heartbeat comes before the last one is too old.
record Fed (m : Monitor) (next_beat : ℕ) : Type 0 where
  armed : Armed m
  limit : m.timeout ≡ 250_000
  due : next_beat ≤ m.last_heartbeat + 250_000

heartbeat-Fed :
    (m : Monitor) (now late : ℕ)
    → late ≤ 200_000
    → Fed m now
    → Fed (heartbeat now m) (now + 50_000 + late)
unfolding heartbeat
heartbeat-Fed m now late few f =
    let on = f.armed.running in
    let calm = f.armed.untripped in
    let fresh : heartbeat now m ≡ record m { last_heartbeat = now } = rw (on, calm) refl in
    rw fresh (record {
      armed = record { pin = f.armed.pin; untripped = calm; running = on };
      limit = f.limit;
      due = omega arith;
    })

not_expired : (m : Monitor) (now next : ℕ) → now < next → Fed m next → expired now m ≡ false
unfolding expired
not_expired m now next early f = ground (arith, f.limit, f.due)

module _ (D : Disk) where
  check-idle :
      (now next : ℕ) (app : Application D)
      → now < next
      → Fed app.safety next
      → watch_round now app.safety ≡ app.safety
  unfolding watch_round watching
  check-idle now next app early f =
      rw (watch_round, f.armed.running, f.armed.untripped, not_expired app.safety now next early f)
        refl

  abbrev IsFed : Threads D → Type 0
  IsFed t = Fed t.app.safety t.next_beat

  round-IsFed : (late : ℕ) (t : Threads D) → late ≤ 200_000 → IsFed t → IsFed (round D late t)
  unfolding round beat check
  round-IsFed late t few f = elim (Bool-cases (leb t.next_beat t.next_check)) [
    | inl first ↦ rw (round, first) (heartbeat-Fed t.app.safety t.next_beat late few f)
    | inr after ↦ rw (round, after, check-idle t.next_check t.next_beat t.app (ground arith) f) f
  ]

  rounds-IsFed :
      (lates : List ℕ) (t : Threads D) → Prompt lates → IsFed t → IsFed (rounds D lates t)
  unfolding rounds
  rounds-IsFed [] t few f = f
  rounds-IsFed (late ∷ later) t few f =
      rounds-IsFed later (round D late t) few.1 (round-IsFed late t few.0 f)

  -- The monitor that `__init__` makes and starts.
  abbrev armed_monitor : List Entry → ℕ → Monitor
  armed_monitor lines now = start now (record {
    timeout = 250_000;
    gpio = Gpio.new lines now;
    last_heartbeat = 0;
    estop_triggered = false;
    running = false;
    thread = false;
  })

  new-safety :
      (root : FilePath) (token : String) (lines : List Entry) (now : ℕ) (d : D.State)
      {app : Application D} {d' : D.State}
      → new_application D root token lines now d ≡ (ok app, d')
      → app.safety ≡ armed_monitor lines now
  unfolding new_application Monitor.new
  new-safety root token lines now d {app} made = elim (Result-cases (new_manager D root d).0) [
    | inr (e, refused) ↦ absurd (ground arith)
    | inl (m, fine) ↦ elim (Result-cases (D.make_dirs root (new_manager D root d).1).0) [
      | inr (e, refused) ↦ absurd (ground arith)
      | inl (_, there) ↦ ground arith
    ]
  ]

  armed-Fed :
      (lines : List Entry) (now next : ℕ)
      → next ≤ now + 200_000
      → Fed (armed_monitor lines now) next
  unfolding start Gpio.new set
  armed-Fed lines now next soon = record {
    armed = record { pin = refl; untripped = refl; running = refl };
    limit = refl;
    due = omega arith;
  }

-- An application that was made at `now` keeps its monitor armed, with the pin high, in all rounds of
-- its two threads: when they start within 200 milliseconds, and each of their sleeps ends at most 200
-- milliseconds after its period.
pub rounds-Armed :
    (D : Disk) (root : FilePath) (token : String) (lines : List Entry) (now : ℕ) (d : D.State)
    (next_beat next_check : ℕ) (lates : List ℕ) {app : Application D} {d' : D.State}
    → new_application D root token lines now d ≡ (ok app, d')
    → next_beat ≤ now + 200_000
    → Prompt lates
    → Armed
        (rounds D lates
          (record { app = app; next_beat = next_beat; next_check = next_check })).app.safety
rounds-Armed D root token lines now d next_beat next_check lates {app} made soon few =
    let t : Threads D = record { app = app; next_beat = next_beat; next_check = next_check } in
    let fed =
      subst (λ m. Fed m next_beat) (sym (new-safety D root token lines now d made))
        (armed-Fed D lines now next_beat soon) in
    (rounds-IsFed D lates t few fed).armed
