-- ===== src/Scripts/Lab/Await.antt =====
-- The waits of the scripts that end in an exception when the time is up.
use rosplus.Base.{ℕ, String, Bool, true, Option, none, some, if◌then◌else◌}
use rosplus.Exec.{ok, raise, Act, gets}
use rosplus.Exec.Errors.{Exception, other_error}
use rosplus.Exec.Task.{Task, done, fail, step, ◌>>=◌, ◌>>◌}
use rosplus.Process.Table.{is_zero}
use rosplus.Scripts.Lab.{Lab, Session, runtime_error, wait_while}

module _ (L : Lab) where
  -- A wait for the condition to pass, and the exception if it has not.
  unfoldable pub await :
      ℕ
      → ℕ
      → (Session L → Bool)
      → Act (Session L) (Option (Unit {0}))
      → String
      → Task (Session L) (Unit {0})
  await fuel limit pending round message = do
    wait_while L fuel limit pending round
    still ← step (gets pending)
    if still then fail (runtime_error message) else done tt

  -- A wait for a value: what a round left the loop with, or the exception.
  abbrev pub or_fail : {A : Type 0} → Exception → Option A → Task (Session L) A
  or_fail e none = fail e
  or_fail e (some a) = done a

  unfoldable pub await_value :
      {A : Type 0} → ℕ → ℕ → Act (Session L) (Option A) → String → Task (Session L) A
  await_value fuel limit round message =
      wait_while L fuel limit (λ _. true) round >>= or_fail (runtime_error message)

  -- `if process.wait(timeout=limit) != 0: raise RuntimeError(message)`
  unfoldable pub wait_zero : ℕ → (L.State → String) → ℕ → Act (Session L) (Unit {0})
  wait_zero limit message pid s =
      let (over, w) = L.wait pid limit s.world in
      let t = record s { world = w } in
      let failed = raise (runtime_error (message w)) in
      if over
      then (elim (L.poll pid w) [
        | none ↦ (failed, t)
        | some code ↦ (if is_zero code then ok tt else failed, t)
      ])
      else (raise (other_error "TimeoutExpired"), t)
