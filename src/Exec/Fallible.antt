-- ===== src/Exec/Fallible.antt =====
-- Chains of steps that may raise and change nothing.
use rosplus.Base.{◌≡◌, refl, ◌↔◌, Bool, true, false, arith, if◌then◌else◌}
use rosplus.Exec.{Result, ok, raise}

infixl 10 ◌>>=◌
abbrev pub ◌>>=◌ : {A B : Type 0} → Result A → (A → Result B) → Result B
ok a >>= f = f a
raise e >>= f = raise e

-- Inversion of a chain that ended well.
pub bind-eq-ok :
    {A B : Type 0} (r : Result A) (f : A → Result B) {b : B}
    → (r >>= f) ≡ ok b
    → (a : A) × (r ≡ ok a) × (f a ≡ ok b)
bind-eq-ok (ok a) f h = (a, refl, h)
bind-eq-ok (raise e) f h = absurd (ground arith)

-- `first and second`, where either may raise
abbrev pub both : Result Bool → Result Bool → Result Bool
both first second = first >>= λ b. if b then second else ok false

pub both_iff :
    (first second : Result Bool)
    → (both first second ≡ ok true) ↔ ((first ≡ ok true) × (second ≡ ok true))
both_iff (ok true) second = (λ h. (refl, h), λ h. h.1)
both_iff (ok false) second = (λ h. absurd (ground arith), λ h. absurd (ground arith))
both_iff (raise e) second = (λ h. absurd (ground arith), λ h. absurd (ground arith))
