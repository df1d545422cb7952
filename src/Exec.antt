-- ===== src/Exec.antt =====
-- Methods that change an object and may raise. What was changed before a raise stays changed, so the
-- state comes back beside an exception too.
pub mod Errors
pub mod Task
pub mod Fallible
use rosplus.Base.{if◌then◌else◌, ◌≡◌, refl, Bool, true, false, arith, ◌⊎◌, inl, inr}
use rosplus.Exec.Errors.{Exception}

pub data Result (A : Type 0) : Type 0 where
  ok : A → Result A
  raise : Exception → Result A

pub Result-cases :
    {A : Type 0} (r : Result A) → ((a : A) × (r ≡ ok a)) ⊎ ((e : Exception) × (r ≡ raise e))
Result-cases (ok a) = inl (a, refl)
Result-cases (raise e) = inr (e, refl)

abbrev pub Act : Type 0 → Type 0 → Type 0
Act S A = S → Result A × S

module _ {S : Type 0} where
  abbrev pub pure : {A : Type 0} → A → Act S A
  pure a s = (ok a, s)

  abbrev pub throw : {A : Type 0} → Exception → Act S A
  throw e s = (raise e, s)

  abbrev pub lift : {A : Type 0} → Result A → Act S A
  lift r s = (r, s)

  abbrev pub gets : {A : Type 0} → (S → A) → Act S A
  gets f s = (ok (f s), s)

  abbrev pub modify : (S → S) → Act S (Unit {0})
  modify f s = (ok tt, f s)

  -- `if not b: raise e`
  abbrev pub require : Bool → Exception → Act S (Unit {0})
  require b e s = (if b then ok tt else raise e, s)

  abbrev pub proceed : {A B : Type 0} → Result A × S → (A → Act S B) → Result B × S
  proceed (ok a, s) f = f a s
  proceed (raise e, s) f = (raise e, s)

  infixl 10 ◌>>=◌ ◌>>◌
  abbrev pub ◌>>=◌ : {A B : Type 0} → Act S A → (A → Act S B) → Act S B
  ◌>>=◌ m f s = proceed (m s) f

  abbrev pub ◌>>◌ : {A B : Type 0} → Act S A → Act S B → Act S B
  ◌>>◌ m n s = proceed (m s) (λ _. n)

  -- Inversion of a chain that ended well.
  pub proceed-eq-ok :
      {A B : Type 0} (r : Result A × S) (f : A → Act S B) {b : B} {t : S}
      → proceed r f ≡ (ok b, t)
      → (a : A) × (s : S) × (r ≡ (ok a, s)) × (f a s ≡ (ok b, t))
  proceed-eq-ok (ok a, s) f h = (a, s, refl, h)
  proceed-eq-ok (raise e, s) f h = ground arith
