-- ===== src/Scripts/Lab/Waiting.antt =====
-- The end of the loops of the scripts that wait.
use rosplus.Exec.Errors.{Exception}
use rosplus.Base.{
  String, ℕ, ◌+◌, ◌-◌, ◌<◌, ◌≤◌, ◌≡◌, ◌∙◌, Bool, true, ◌&&◌, Option, none, some, arith, ltb, ltb→lt,
}
use rosplus.Exec.{ok, Act}
use rosplus.Exec.Task.{done, fail}
use rosplus.Exec.Task.Returns.{bind-returns, loop-left}
use rosplus.Exec.Task.Ends.{
  Ends, Ends-done, Ends-fail, Ends-if, Ends-bind, Ends-then, first_bind, loop-Ends,
}
use rosplus.Scripts.Lab.Await.{or_fail, await, await_value}
use rosplus.Scripts.Lab.{
  Lab, Session, Call, runtime_error, spin_once, wait_while, checked_sleep, checked_spin,
  sleep_checked, spin_checked,
}

-- A sleep lasts, and so does a call of `spin_once`, if for one microsecond; no call turns the clock
-- back.
pub record IsTicking (L : Lab) : Type 0 where
  pub tick-sleep : (n : ℕ) (s : L.State) → 0 < n → L.clock s < L.clock (L.sleep n s)
  pub tick-perform : (c : Call) (s : L.State) → L.clock s ≤ L.clock (L.perform c s).1
  pub tick-spin : (s : L.State) → L.clock s < L.clock (L.perform spin_once s).1

module _ {L : Lab} where
  -- A round that goes on has taken time.
  pub record Ticks {A : Type 0} (round : Act (Session L) (Option A)) : Type 0 where
    pub at : (s s' : Session L) → round s ≡ (ok none, s') → L.clock s.world < L.clock s'.world

  pub Ends-wait_while :
      {A : Type 0} (fuel limit : ℕ) (pending : Session L → Bool)
      (round : Act (Session L) (Option A))
      → limit < fuel
      → Ticks round
      → Ends (wait_while L fuel limit pending round)
  unfolding wait_while
  Ends-wait_while fuel limit pending round enough ticks = record {
    at = λ s.
        let deadline = L.clock s.world + limit in
        loop-Ends (λ t. deadline - L.clock t.world)
          (λ t. pending t && ltb (L.clock t.world) deadline) round
          (λ t t' on e.
            let passed = ticks.at t t' e in
            let early : ltb (L.clock t.world) deadline ≡ true = ground arith in
            let before = ltb→lt (L.clock t.world) deadline early in omega arith)
          fuel s (omega arith);
  }

module _ (L : Lab) (T : IsTicking L) {A : Type 0} (child : ℕ) where
  pub Ticks-checked_sleep : (n : ℕ) → 0 < n → Ticks {L = L} {A = A} (checked_sleep L child n)
  unfolding checked_sleep
  Ticks-checked_sleep n h = record { at = λ s s' e. ground (arith, T.tick-sleep n s.world h) }

  pub Ticks-checked_spin : Ticks {L = L} {A = A} (checked_spin L child)
  unfolding checked_spin
  Ticks-checked_spin = record { at = λ s s' e. ground (arith, T.tick-spin s.world) }

  pub Ticks-sleep_checked : (n : ℕ) → 0 < n → Ticks {L = L} {A = A} (sleep_checked L child n)
  unfolding sleep_checked
  Ticks-sleep_checked n h = record { at = λ s s' e. ground (arith, T.tick-sleep n s.world h) }

  pub Ticks-spin_checked : Ticks {L = L} {A = A} (spin_checked L child)
  unfolding spin_checked
  Ticks-spin_checked = record { at = λ s s' e. ground (arith, T.tick-spin s.world) }

module _ {L : Lab} where
  pub Ends-await :
      (fuel limit : ℕ) (pending : Session L → Bool) (round : Act (Session L) (Option (Unit {0})))
      (message : String)
      → limit < fuel
      → Ticks round
      → Ends (await L fuel limit pending round message)
  unfolding await
  Ends-await fuel limit pending round message enough ticks =
      Ends-then _ _ (Ends-wait_while fuel limit pending round enough ticks)
        (first_bind _ (λ still. Ends-if still _ _ (Ends-fail _) (Ends-done tt)))

  Ends-or_fail : {A : Type 0} (e : Exception) (o : Option A) → Ends (or_fail L e o)
  Ends-or_fail e none = Ends-fail e
  Ends-or_fail e (some a) = Ends-done a

  pub Ends-await_value :
      {A : Type 0} (fuel limit : ℕ) (round : Act (Session L) (Option A)) (message : String)
      → limit < fuel
      → Ticks round
      → Ends (await_value L fuel limit round message)
  unfolding await_value
  Ends-await_value fuel limit round message enough ticks =
      Ends-bind _ _ (Ends-wait_while fuel limit (λ _. true) round enough ticks) (Ends-or_fail _)

  or_fail-returns :
      {A : Type 0} (e : Exception) (o : Option A) (s : Session L) (a : A) (t : Session L)
      → or_fail L e o s ≡ some (ok a, t)
      → (o ≡ some a) × (s ≡ t)
  unfolding fail done
  or_fail-returns e none s a t h = absurd (ground arith)
  or_fail-returns e (some b) s a t h = (ground arith, ground arith)

  -- A value that was waited for came from a round.
  pub await_value-returns :
      {A : Type 0} (fuel limit : ℕ) (round : Act (Session L) (Option A)) (message : String)
      (s : Session L) (a : A) (t : Session L)
      → await_value L fuel limit round message s ≡ some (ok a, t)
      → (s' : Session L) × (round s' ≡ (ok (some a), t))
  unfolding await_value wait_while
  await_value-returns fuel limit round message s a t h =
      let (o, s1, h1, h2) = bind-returns _ _ s h in
      let (is, same) = or_fail-returns (runtime_error message) o s1 a t h2 in
      loop-left _ round a t fuel s (h1 ∙ (λ i. some (ok (is i), same i)))
