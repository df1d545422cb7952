-- ===== src/Base/Order.antt =====
-- `sort` makes a list that is in order.
use mathlib.Core.Path.{◌≡◌}
use mathlib.Core.Bool.{Bool, true, false}
use mathlib.Core.Logic.{inl, inr}
use mathlib.Core.List.{List, [], ◌∷◌}
use rosplus.Base.Tests.{Bool-cases}
use rosplus.Base.Sort.{place, sort}

module _ {ℓ} {A : Type ℓ} (le : A → A → Bool) where
  abbrev pub Leads : A → List A → Type 0
  Leads x [] = Unit
  Leads x (y ∷ ys) = le x y ≡ true

  -- Each comes before the next, or is equal to it.
  abbrev pub IsSorted : List A → Type 0
  IsSorted [] = Unit
  IsSorted (x ∷ xs) = Leads x xs × IsSorted xs

  module _ (total : (x y : A) → le x y ≡ false → le y x ≡ true) where
    place-Leads : (z x : A) (ys : List A) → le z x ≡ true → Leads z ys → Leads z (place le x ys)
    unfolding place
    place-Leads z x [] h k = h
    place-Leads z x (y ∷ ys) h k = elim (Bool-cases (le x y)) [ inl e ↦ rw e h | inr e ↦ rw e k ]

    place-IsSorted : (x : A) (ys : List A) → IsSorted ys → IsSorted (place le x ys)
    unfolding place
    place-IsSorted x [] h = (tt, tt)
    place-IsSorted x (y ∷ ys) h = elim (Bool-cases (le x y)) [
      | inl e ↦ rw e (e, h)
      | inr e ↦ rw e (place-Leads y x ys (total x y e) h.0, place-IsSorted x ys h.1)
    ]

    pub sort-IsSorted : (xs : List A) → IsSorted (sort le xs)
    unfolding sort
    sort-IsSorted [] = tt
    sort-IsSorted (x ∷ xs) = place-IsSorted x (sort le xs) (sort-IsSorted xs)
