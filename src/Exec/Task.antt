-- ===== src/Exec/Task.antt =====
-- Programs that wait: an action that may also still be running when its fuel is gone (`none`).
pub mod Ends
pub mod Returns
pub mod Keeps
use rosplus.Base.{ℕ, zero, suc, Bool, true, false, Option, none, some, if◌then◌else◌}
use rosplus.Exec.{Result, ok, raise, Act}
use rosplus.Exec.Errors.{Exception}

abbrev pub Task : Type 0 → Type 0 → Type 0
Task S A = S → Option (Result A × S)

module _ {S : Type 0} where
  unfoldable pub done : {A : Type 0} → A → Task S A
  done a s = some (ok a, s)

  unfoldable pub fail : {A : Type 0} → Exception → Task S A
  fail e s = some (raise e, s)

  -- An action that returns or raises at once.
  unfoldable pub step : {A : Type 0} → Act S A → Task S A
  step m s = some (m s)

  abbrev pub onward :
      {A B : Type 0} → Option (Result A × S) → (A → Task S B) → Option (Result B × S)
  onward none f = none
  onward (some (ok a, s)) f = f a s
  onward (some (raise e, s)) f = some (raise e, s)

  infixl 10 ◌>>=◌ ◌>>◌
  unfoldable pub ◌>>=◌ : {A B : Type 0} → Task S A → (A → Task S B) → Task S B
  ◌>>=◌ m f s = onward (m s) f

  unfoldable pub ◌>>◌ : {A B : Type 0} → Task S A → Task S B → Task S B
  ◌>>◌ m n s = onward (m s) (λ _. n)

  -- An exception of the last part replaces what the body came to.
  abbrev pub closed : {A : Type 0} → Result A → Result (Unit {0}) × S → Result A × S
  closed r (ok _, s) = (r, s)
  closed r (raise e, s) = (raise e, s)

  -- `try: m finally: last`
  unfoldable pub try_finally : {A : Type 0} → Task S A → Act S (Unit {0}) → Task S A
  try_finally m last s = elim (m s) [ none ↦ none | some (r, s') ↦ some (closed r (last s')) ]

  abbrev pub again :
      {A : Type 0} → Result (Option A) × S → Task S (Option A) → Option (Result (Option A) × S)
  again (raise e, s) more = some (raise e, s)
  again (ok (some a), s) more = some (ok (some a), s)
  again (ok none, s) more = more s

  -- `while test: round`, where a round may leave the loop with a value
  unfoldable pub loop : {A : Type 0} → ℕ → (S → Bool) → Act S (Option A) → Task S (Option A)
  loop zero test round s = none
  loop (suc fuel) test round s =
      let more : Task S (Option _) = λ s'. loop fuel test round s' in
      if test s then again (round s) more else some (ok none, s)
