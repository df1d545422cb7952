-- ===== src/Exec/Task/Ends.antt =====
-- Which programs come to an end, one rule for each way to build one.
use rosplus.Base.{
  ℕ, zero, suc, ◌<◌, ◌≡◌, refl, Bool, true, false, Option, none, some, arith, inl, inr, Bool-cases,
  if◌then◌else◌,
}
use rosplus.Exec.{Result, ok, raise, Act, Result-cases}
use rosplus.Exec.Errors.{Exception}
use rosplus.Exec.Task.{Task, done, fail, step, onward, ◌>>=◌, ◌>>◌, try_finally, again, loop}

-- From every state the program returns or raises.
pub record Ends {S A : Type 0} (m : Task S A) : Type 0 where
  pub at : (s : S) → (r : Result A × S) × (m s ≡ some r)

module _ {S A : Type 0} where
  pub Ends-done : (a : A) → Ends (done {S = S} a)
  unfolding done
  Ends-done a = record { at = λ s. ((ok a, s), refl) }

  pub Ends-fail : (e : Exception) → Ends (fail {S = S} {A = A} e)
  unfolding fail
  Ends-fail e = record { at = λ s. ((raise e, s), refl) }

  pub Ends-step : (m : Act S A) → Ends (step m)
  unfolding step
  Ends-step m = record { at = λ s. (m s, refl) }

  pub Ends-if : (b : Bool) (m n : Task S A) → Ends m → Ends n → Ends (if b then m else n)
  Ends-if true m n em en = em
  Ends-if false m n em en = en

  pub Ends-try_finally :
      (m : Task S A) (last : Act S (Unit {0})) → Ends m → Ends (try_finally m last)
  unfolding try_finally
  Ends-try_finally m last em = record {
    at = λ s. let (r, e) = em.at s in rw (try_finally, e) (_, refl);
  }

module _ {S A B : Type 0} where
  onward-Ends :
      (o : Option (Result A × S)) (f : A → Task S B)
      → (r : Result A × S) × (o ≡ some r)
      → ((a : A) → Ends (f a))
      → (r : Result B × S) × (onward o f ≡ some r)
  onward-Ends none f h k = absurd (ground arith)
  onward-Ends (some (ok a, s)) f h k = (k a).at s
  onward-Ends (some (raise e, s)) f h k = (_, refl)

  pub Ends-bind :
      (m : Task S A) (f : A → Task S B) → Ends m → ((a : A) → Ends (f a)) → Ends (m >>= f)
  unfolding ◌>>=◌
  Ends-bind m f em ef = record { at = λ s. onward-Ends (m s) f (em.at s) ef }

  pub Ends-then : (m : Task S A) (n : Task S B) → Ends m → Ends n → Ends (m >> n)
  unfolding ◌>>◌
  Ends-then m n em en = record { at = λ s. onward-Ends (m s) (λ _. n) (em.at s) (λ _. en) }

again-Ends :
    {S A : Type 0} (o : Result (Option A) × S) (more : Task S (Option A))
    → ((s' : S) → o ≡ (ok none, s') → (r : Result (Option A) × S) × (more s' ≡ some r))
    → (r : Result (Option A) × S) × (again o more ≡ some r)
again-Ends (raise e, s') more k = (_, refl)
again-Ends (ok (some a), s') more k = (_, refl)
again-Ends (ok none, s') more k = k s' refl

-- A loop ends when a measure below the fuel falls in every round that goes on.
pub loop-Ends :
    {S A : Type 0} (measure : S → ℕ) (test : S → Bool) (round : Act S (Option A))
    → ((s s' : S) → test s ≡ true → round s ≡ (ok none, s') → measure s' < measure s)
    → (fuel : ℕ) (s : S) → measure s < fuel
    → (r : Result (Option A) × S) × (loop fuel test round s ≡ some r)
unfolding loop
loop-Ends measure test round falls zero s h = absurd (omega arith)
loop-Ends measure test round falls (suc fuel) s h = elim (Bool-cases (test s)) [
  | inr over ↦ rw (loop, over) (_, refl)
  | inl on ↦
      rw (loop, on)
        (again-Ends (round s) (λ s'. loop fuel test round s')
          (λ s' g.
            let less = falls s s' on g in loop-Ends measure test round falls fuel s' (omega arith)))
]

pub ruleset ends_rules =
    (Ends-done, Ends-fail, Ends-step, Ends-if, Ends-try_finally, Ends-bind, Ends-then)

module _ {S A B : Type 0} where
  -- An action first: what follows has to end.
  pub first : (m : Act S A) {n : Task S B} → Ends n → Ends (step m >> n)
  first m en = Ends-then _ _ (Ends-step _) en

  pub first_bind : (m : Act S A) {f : A → Task S B} → ((a : A) → Ends (f a)) → Ends (step m >>= f)
  first_bind m ef = Ends-bind _ _ (Ends-step _) ef

-- Reading the state first: what follows has to end from the state that was read.
pub Ends-gets :
    {S A B : Type 0} (f : S → A) (m : A → Task S B)
    → ((s : S) → (r : Result B × S) × (m (f s) s ≡ some r))
    → Ends (step (λ s. (ok (f s), s)) >>= m)
unfolding step ◌>>=◌
Ends-gets f m h = record { at = h }

-- A step first, from one state.
pub after_step :
    {S A B : Type 0} (m : Act S A) (n : Task S B) (s : S)
    → ((r : Result B × S) × (n (m s).1 ≡ some r))
    → (r : Result B × S) × ((step m >> n) s ≡ some r)
unfolding step ◌>>◌
after_step m n s (r, e) = elim (Result-cases (m s).0) [
  | inl (a, fine) ↦ (r, rw (◌>>◌, step, fine) e)
  | inr (x, failed) ↦ ((raise x, (m s).1), rw (◌>>◌, step, failed) refl)
]

-- A program that ends from one state first.
pub then_from :
    {S A B : Type 0} (m : Task S A) (n : Task S B) (s : S)
    → ((r : Result A × S) × (m s ≡ some r))
    → Ends n
    → (r : Result B × S) × ((m >> n) s ≡ some r)
unfolding ◌>>◌
then_from m n s em en = onward-Ends (m s) (λ _. n) em (λ _. en)

-- Nothing follows an exception.
pub fail_first :
    {S B : Type 0} (A : Type 0) (e : Exception) (n : Task S B) (s : S)
    → (r : Result B × S) × ((fail {A = A} e >> n) s ≡ some r)
unfolding fail ◌>>◌
fail_first A e n s = ((raise e, s), refl)
