-- ===== src/Safety/Threads/Invariant.antt =====
-- What every step of the threads keeps.
use rosplus.Base.{ℕ, ◌≡◌, ◌⊎◌, refl, Bool, true, false, List, [], ◌∷◌, ◌++◌, arith, any}
use rosplus.Safety.Gpio.{Level, low, high, Reason, e_stop, disarmed, armed, Entry, Gpio, set}
use rosplus.Safety.Monitor.{Monitor, watching}
use rosplus.Safety.Threads.{
  Watcher, absent, flagging, calling, finished, Controller, created, started, cleared, stopped,
  System, Step, tick, start_running, start_heartbeat, start_gpio, start_thread, stop_running,
  stop_gpio, beat_guard, beat_write, watch_on, watch_off, watch_old, watch_young, watch_fire,
  watch_flag, watch_call, watch_wake, fresh, Reach, here, next,
}

-- The line that an emergency stop writes.
abbrev pub is_trip : Entry → Bool
is_trip e = elim e.reason [ e_stop ↦ elim e.state [ low ↦ true | high ↦ false ] | _ ↦ false ]

abbrev pub Audited : Gpio → Type 0
Audited g = any is_trip g.log ≡ true

-- The caller is past `start`.
abbrev spawned : Controller → Bool
spawned started = true
spawned cleared = true
spawned stopped = true
spawned _ = false

-- The watcher has driven the pin low.
abbrev has_fired : Watcher → Bool
has_fired flagging = true
has_fired calling = true
has_fired _ = false

-- The caller has set `running` and not cleared it.
abbrev is_on : Controller → Bool
is_on created = false
is_on cleared = false
is_on stopped = false
is_on _ = true

any-append-true : (xs ys : List Entry) → any is_trip xs ≡ true → any is_trip (xs ++ ys) ≡ true
any-append-true [] ys h = cc
any-append-true (x ∷ xs) ys h = ground (arith, any-append-true xs ys)

any-append_last :
    (xs : List Entry) (y : Entry) → is_trip y ≡ true → any is_trip (xs ++ y ∷ []) ≡ true
any-append_last [] y h = ground arith
any-append_last (x ∷ xs) y h = ground (arith, any-append_last xs y h)

Audited-set : (l : Level) (r : Reason) (now : ℕ) (g : Gpio) → Audited g → Audited (set l r now g)
unfolding set
Audited-set l r now g h =
    ground
      (arith, any-append-true g.log (record { timestamp_ns = now; state = l; reason = r } ∷ []) h)

Audited-e_stop : (now : ℕ) (g : Gpio) → Audited (set low e_stop now g)
unfolding set
Audited-e_stop now g =
    let e : Entry = record { timestamp_ns = now; state = low; reason = e_stop } in
    ground (arith, any-append_last g.log e refl)

state-set : (l : Level) (r : Reason) (now : ℕ) (g : Gpio) → (set l r now g).state ≡ l
unfolding set
state-set l r now g = ground arith

pub record Inv (s : System) : Type 0 where
  pub waits : spawned s.controller ≡ false → s.watcher ≡ absent
  pub unflagged : s.watcher ≡ absent → s.mon.estop_triggered ≡ false
  pub fired_low : has_fired s.watcher ≡ true → s.mon.gpio.state ≡ low
  pub fired_audited : has_fired s.watcher ≡ true → Audited s.mon.gpio
  pub flag_low : s.mon.estop_triggered ≡ true → s.mon.gpio.state ≡ low
  pub flag_audited : s.mon.estop_triggered ≡ true → Audited s.mon.gpio
  pub stopped_low : s.controller ≡ stopped → s.mon.gpio.state ≡ low
  pub stopped_off : s.controller ≡ stopped → s.mon.running ≡ false
  pub on : is_on s.controller ≡ true → s.mon.running ≡ true
  pub cleared_off : s.controller ≡ cleared → s.mon.running ≡ false
  pub ended : s.watcher ≡ finished → (s.mon.estop_triggered ≡ true) ⊎ (s.mon.running ≡ false)
  pub called : s.watcher ≡ calling → s.mon.estop_triggered ≡ true

pub fresh-Inv : (now : ℕ) (m : Monitor) → m.estop_triggered ≡ false → Inv (fresh now m)
fresh-Inv now m h = ground arith

pub Step-Inv : {s t : System} → Step s t → Inv s → Inv t
unfolding watching
Step-Inv (tick s n) i = ground arith
Step-Inv (start_running s p) i = ground arith
Step-Inv (start_heartbeat s p) i = ground arith
Step-Inv (start_gpio s p) i = ground (arith, state-set high armed s.now s.mon.gpio)
Step-Inv (start_thread s p) i = ground arith
Step-Inv (stop_running s p) i = ground arith
Step-Inv (stop_gpio s p) i =
    ground
      (arith, state-set low disarmed s.now s.mon.gpio, Audited-set low disarmed s.now s.mon.gpio)
Step-Inv (beat_guard s p q) i = ground arith
Step-Inv (beat_write s p) i = ground arith
Step-Inv (watch_on s p q) i = ground arith
Step-Inv (watch_off s p q) i = ground arith
Step-Inv (watch_old s p q) i = ground arith
Step-Inv (watch_young s p q) i = ground arith
Step-Inv (watch_fire s p) i =
    ground (arith, state-set low e_stop s.now s.mon.gpio, Audited-e_stop s.now s.mon.gpio)
Step-Inv (watch_flag s p) i = ground arith
Step-Inv (watch_call s p) i = ground arith
Step-Inv (watch_wake s t p q) i = ground arith

pub Reach-Inv : {s t : System} → Inv s → Reach s t → Inv t
Reach-Inv i here = i
Reach-Inv i (next r st) = Step-Inv st (Reach-Inv i r)
