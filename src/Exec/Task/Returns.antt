-- ===== src/Exec/Task/Returns.antt =====
-- What came before, where a program has returned.
use rosplus.Base.{
  subst, ℕ, zero, suc, Bool, true, Bool-cases, inl, inr, ◌≡◌, refl, Option, none, some, arith,
}
use rosplus.Exec.{Result, ok, raise, Act}
use rosplus.Exec.Task.{Task, onward, ◌>>=◌, ◌>>◌, try_finally, closed, again, loop}

module _ {S A B : Type 0} where
  onward-returns :
      (o : Option (Result A × S)) (f : A → Task S B) {b : B} {t : S}
      → onward o f ≡ some (ok b, t)
      → (a : A) × (s : S) × (o ≡ some (ok a, s)) × (f a s ≡ some (ok b, t))
  onward-returns none f h = absurd (ground arith)
  onward-returns (some (ok a, s)) f h = (a, s, refl, h)
  onward-returns (some (raise e, s)) f h = absurd (ground arith)

  pub bind-returns :
      (m : Task S A) (f : A → Task S B) (s : S) {b : B} {t : S}
      → (m >>= f) s ≡ some (ok b, t)
      → (a : A) × (s' : S) × (m s ≡ some (ok a, s')) × (f a s' ≡ some (ok b, t))
  unfolding ◌>>=◌
  bind-returns m f s h = onward-returns (m s) f h

  pub then-returns :
      (m : Task S A) (n : Task S B) (s : S) {b : B} {t : S}
      → (m >> n) s ≡ some (ok b, t)
      → (a : A) × (s' : S) × (m s ≡ some (ok a, s')) × (n s' ≡ some (ok b, t))
  unfolding ◌>>◌
  then-returns m n s h = onward-returns (m s) (λ _. n) h

module _ {S A : Type 0} where
  closed-returns :
      (r : Result A) (o : Result (Unit {0}) × S) {a : A} {t : S} → closed r o ≡ (ok a, t) → r ≡ ok a
  closed-returns r (ok _, s) h = ground arith
  closed-returns r (raise e, s) h = absurd (ground arith)

  closed-last :
      (r : Result A) (o : Result (Unit {0}) × S) {a : A} {t : S}
      → closed r o ≡ (ok a, t)
      → o ≡ (ok tt, t)
  closed-last r (ok _, s) h = λ i. (ok tt, (h i).1)
  closed-last r (raise e, s) h = absurd (ground arith)

  -- The body had returned the value, and the last part ended in the state that is left.
  pub try_finally-closed :
      (m : Task S A) (last : Act S (Unit {0})) (s : S) {a : A} {t : S}
      → try_finally m last s ≡ some (ok a, t)
      → (s' : S) × (m s ≡ some (ok a, s')) × (last s' ≡ (ok tt, t))
  unfolding try_finally
  try_finally-closed m last s {a} {t} h = go (m s) h
    where
      go :
          (o : Option (Result A × S))
          → (elim o [ none ↦ none | some p ↦ some (closed p.0 (last p.1)) ]) ≡ some (ok a, t)
          → (s' : S) × (o ≡ some (ok a, s')) × (last s' ≡ (ok tt, t))
      go none h = absurd (ground arith)
      go (some (r, s1)) h =
          let e : closed r (last s1) ≡ (ok a, t) = ground arith in
          (s1, rw (closed-returns r (last s1) e) refl, closed-last r (last s1) e)

  -- The body had returned the value.
  pub try_finally-returns :
      (m : Task S A) (last : Act S (Unit {0})) (s : S) {a : A} {t : S}
      → try_finally m last s ≡ some (ok a, t)
      → (s' : S) × (m s ≡ some (ok a, s'))
  unfolding try_finally
  try_finally-returns m last s {a} {t} h = go (m s) h
    where
      go :
          (o : Option (Result A × S))
          → (elim o [ none ↦ none | some p ↦ some (closed p.0 (last p.1)) ]) ≡ some (ok a, t)
          → (s' : S) × (o ≡ some (ok a, s'))
      go none h = absurd (ground arith)
      go (some (r, s1)) h =
          let e : closed r (last s1) ≡ (ok a, t) = ground arith in
          (s1, rw (closed-returns r (last s1) e) refl)

module _ {S A : Type 0} where
  again-left :
      (o : Result (Option A) × S) (more : Task S (Option A)) (P : Type 0) (a : A) (t : S)
      → again o more ≡ some (ok (some a), t)
      → (o ≡ (ok (some a), t) → P)
      → ((s : S) → more s ≡ some (ok (some a), t) → P)
      → P
  again-left (raise e, s) more P a t h now later = absurd (ground arith)
  again-left (ok (some b), s) more P a t h now later = now (ground arith)
  again-left (ok none, s) more P a t h now later = later s h

  -- A loop that was left with a value had a round that left it so.
  pub loop-left :
      (test : S → Bool) (round : Act S (Option A)) (a : A) (t : S) (fuel : ℕ) (s : S)
      → loop fuel test round s ≡ some (ok (some a), t)
      → (s' : S) × (round s' ≡ (ok (some a), t))
  unfolding loop
  loop-left test round a t zero s h = absurd (ground arith)
  loop-left test round a t (suc fuel) s h =
      let more : Task S (Option A) = λ s'. loop fuel test round s' in
      let on : again (round s) more ≡ some (ok (some a), t) = elim (Bool-cases (test s)) [
        | inr over ↦ absurd (ground arith)
        | inl on ↦ ground arith
      ] in
      again-left (round s) more _ a t on (λ now. (s, now)) (loop-left test round a t fuel)

  again-returns :
      (P : S → Type 0) (o : Result (Option A) × S) (more : Task S (Option A)) (a : Option A) (t : S)
      → again o more ≡ some (ok a, t)
      → ((b : Option A) (s : S) → o ≡ (ok b, s) → P s)
      → ((s : S) → P s → more s ≡ some (ok a, t) → P t)
      → P t
  again-returns P (raise e, s) more a t h now later = absurd (ground arith)
  again-returns P (ok (some b), s) more a t h now later =
      subst P (ground arith) (now (some b) s refl)
  again-returns P (ok none, s) more a t h now later = later s (now none s refl) h

  -- What every round that returns keeps, while the test holds, holds when the loop has returned.
  pub loop-returns :
      (P : S → Type 0) (test : S → Bool) (round : Act S (Option A))
      → ((s t : S) (b : Option A) → test s ≡ true → round s ≡ (ok b, t) → P s → P t)
      → (fuel : ℕ) (s : S) (a : Option A) (t : S) → loop fuel test round s ≡ some (ok a, t)
      → P s
      → P t
  unfolding loop
  loop-returns P test round kept zero s a t h p = absurd (ground arith)
  loop-returns P test round kept (suc fuel) s a t h p = elim (Bool-cases (test s)) [
    | inr over ↦ subst P (ground arith) p
    | inl on ↦
        let more : Task S (Option A) = λ s'. loop fuel test round s' in
        let went : again (round s) more ≡ some (ok a, t) = ground arith in
        again-returns P (round s) more a t went (λ b s' e. kept s s' b on e p)
          (λ s' p' h'. loop-returns P test round kept fuel s' a t h' p')
  ]
