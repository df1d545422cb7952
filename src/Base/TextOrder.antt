-- ===== src/Base/TextOrder.antt =====
-- Of two texts one comes first.
use Prim.Native.Nat.{ℕ, Ordering, compare as compare_ℕ}
use Prim.Native.Char.{code}
use Prim.Native.String.compare
use Prim.Native.String.{String, compare, then}
use text.Mathlib.Text.{is_le}
use mathlib.Core.Path.{◌≡◌, refl}
use mathlib.Core.Bool.{true, false}
use native.Mathlib.Omega.{arith}

-- What the comparison gives when its sides are exchanged.
abbrev flip : Ordering → Ordering
flip Ordering.lt = Ordering.gt
flip Ordering.eq = Ordering.eq
flip Ordering.gt = Ordering.lt

then-flip : (m n : ℕ) (o : Ordering) → then (compare_ℕ n m) (flip o) ≡ flip (then (compare_ℕ m n) o)
then-flip m n o = ground arith

compare-flip : (s t : String) → compare t s ≡ flip (compare s t)
compare-flip String.[] String.[] = rw compare.nil-nil refl
compare-flip String.[] (String.◌∷◌ d t) = rw (compare.cons-nil d t, compare.nil-cons d t) refl
compare-flip (String.◌∷◌ c s) String.[] = rw (compare.cons-nil c s, compare.nil-cons c s) refl
compare-flip (String.◌∷◌ c s) (String.◌∷◌ d t) =
    rw (compare.cons-cons c d s t, compare.cons-cons d c t s, compare-flip s t)
      (then-flip (code c) (code d) (compare s t))

pub is_le_total : (s t : String) → is_le (compare s t) ≡ false → is_le (compare t s) ≡ true
is_le_total s t h = go (compare s t) (compare t s) (compare-flip s t) h
  where
    go : (a b : Ordering) → b ≡ flip a → is_le a ≡ false → is_le b ≡ true
    go Ordering.lt b e h = cc
    go Ordering.eq b e h = cc
    go Ordering.gt b e h = rw e refl
