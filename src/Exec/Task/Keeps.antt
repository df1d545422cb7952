-- ===== src/Exec/Task/Keeps.antt =====
-- Which programs keep a property of the state, one rule for each way to build one.
use rosplus.Base.{
  ℕ, zero, suc, ◌≡◌, refl, subst, Bool, true, false, Option, none, some, arith, inl, inr,
  Bool-cases, if◌then◌else◌,
}
use rosplus.Exec.{Result, ok, raise, Act, pure, gets, proceed, Result-cases}
use rosplus.Exec.Errors.{Exception}
use rosplus.Exec.Task.{
  Task, done, fail, step, onward, ◌>>=◌, ◌>>◌, try_finally, closed, again, loop,
}

-- Whatever an action comes to, and whatever a program comes to.
pub record Steady {S A : Type 0} (P : S → Type 0) (m : Act S A) : Type 0 where
  pub at : (s : S) → P s → P (m s).1

pub record Keeps {S A : Type 0} (P : S → Type 0) (m : Task S A) : Type 0 where
  pub at : (s : S) (r : Result A) (t : S) → m s ≡ some (r, t) → P s → P t

module _ {S : Type 0} {P : S → Type 0} {A : Type 0} where
  pub Keeps-done : (a : A) → Keeps P (done {S = S} a)
  unfolding done
  Keeps-done a = record { at = λ s r t e p. subst P (ground arith) p }

  pub Keeps-fail : (e : Exception) → Keeps P (fail {S = S} {A = A} e)
  unfolding fail
  Keeps-fail x = record { at = λ s r t e p. subst P (ground arith) p }

  pub Keeps-step : (m : Act S A) → Steady P m → Keeps P (step m)
  unfolding step
  Keeps-step m steady = record {
    at = λ s r t e p. let is : (m s).1 ≡ t = ground arith in subst P is (steady.at s p);
  }

  pub Keeps-if : (b : Bool) (m n : Task S A) → Keeps P m → Keeps P n → Keeps P (if b then m else n)
  Keeps-if true m n km kn = km
  Keeps-if false m n km kn = kn

  pub Steady-gets : (f : S → A) → Steady P (gets f)
  Steady-gets f = record { at = λ s p. p }

  pub Steady-pure : (a : A) → Steady P (pure {S = S} a)
  Steady-pure a = record { at = λ s p. p }

  finally-keeps :
      (o : Option (Result A × S)) (last : Act S (Unit {0})) (r : Result A) (t : S)
      → (elim o [ none ↦ none | some p ↦ some (closed p.0 (last p.1)) ]) ≡ some (r, t)
      → ((q : Result A) (s : S) → o ≡ some (q, s) → P s)
      → Steady P last
      → P t
  finally-keeps none last r t h kept steady = absurd (ground arith)
  finally-keeps (some (q, s)) last r t h kept steady =
      let is : (last s).1 ≡ t = elim (Result-cases (last s).0) [
        | inl (x, fine) ↦ ground arith
        | inr (x, failed) ↦ ground arith
      ] in
      subst P is (steady.at s (kept q s refl))

  pub Keeps-try_finally :
      (m : Task S A) (last : Act S (Unit {0}))
      → Keeps P m
      → Steady P last
      → Keeps P (try_finally m last)
  unfolding try_finally
  Keeps-try_finally m last km steady = record {
    at = λ s r t e p. finally-keeps (m s) last r t e (λ q u g. km.at s q u g p) steady;
  }

  again-keeps :
      (o : Result (Option A) × S) (more : Task S (Option A)) (r : Result (Option A)) (t : S)
      → again o more ≡ some (r, t)
      → P o.1
      → ((s : S) → P s → more s ≡ some (r, t) → P t)
      → P t
  again-keeps (raise e, s) more r t h p later = subst P (ground arith) p
  again-keeps (ok (some a), s) more r t h p later = subst P (ground arith) p
  again-keeps (ok none, s) more r t h p later = later s p h

  pub Keeps-loop :
      (fuel : ℕ) (test : S → Bool) (round : Act S (Option A))
      → Steady P round
      → Keeps P (loop fuel test round)
  unfolding loop
  Keeps-loop zero test round steady = record { at = λ s r t e p. absurd (ground arith) }
  Keeps-loop (suc fuel) test round steady = record {
    at = λ s r t e p. elim (Bool-cases (test s)) [
      | inr over ↦ subst P (ground arith) p
      | inl on ↦
          let more : Task S (Option A) = λ s'. loop fuel test round s' in
          let went : again (round s) more ≡ some (r, t) = ground arith in
          again-keeps (round s) more r t went (steady.at s p)
            (λ s' p' h'. (Keeps-loop fuel test round steady).at s' r t h' p')
    ];
  }

module _ {S : Type 0} {P : S → Type 0} {A B : Type 0} where
  onward-keeps :
      (o : Option (Result A × S)) (f : A → Task S B) (r : Result B) (t : S)
      → onward o f ≡ some (r, t)
      → ((q : Result A) (s : S) → o ≡ some (q, s) → P s)
      → ((a : A) → Keeps P (f a))
      → P t
  onward-keeps none f r t h kept k = absurd (ground arith)
  onward-keeps (some (ok a, s)) f r t h kept k = (k a).at s r t h (kept (ok a) s refl)
  onward-keeps (some (raise e, s)) f r t h kept k = subst P (ground arith) (kept (raise e) s refl)

  pub Keeps-bind :
      (m : Task S A) (f : A → Task S B) → Keeps P m → ((a : A) → Keeps P (f a)) → Keeps P (m >>= f)
  unfolding ◌>>=◌
  Keeps-bind m f km kf = record {
    at = λ s r t e p. onward-keeps (m s) f r t e (λ q u g. km.at s q u g p) kf;
  }

  pub Keeps-then : (m : Task S A) (n : Task S B) → Keeps P m → Keeps P n → Keeps P (m >> n)
  unfolding ◌>>◌
  Keeps-then m n km kn = record {
    at = λ s r t e p. onward-keeps (m s) (λ _. n) r t e (λ q u g. km.at s q u g p) (λ _. kn);
  }

  -- One action after another.
  pub Steady-proceed :
      (m : Act S A) (f : A → Act S B)
      → Steady P m
      → ((a : A) → Steady P (f a))
      → Steady P (λ s. proceed (m s) f)
  Steady-proceed m f sm sf = record {
    at = λ s p. elim (Result-cases (m s).0) [
      | inl (a, fine) ↦ rw fine ((sf a).at (m s).1 (sm.at s p))
      | inr (e, failed) ↦ rw failed (sm.at s p)
    ];
  }

pub ruleset keeps_rules = (
  Keeps-done, Keeps-fail, Keeps-step, Keeps-if, Keeps-try_finally, Keeps-bind, Keeps-then,
  Steady-gets, Steady-pure,
)
