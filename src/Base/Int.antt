-- ===== src/Base/Int.antt =====
-- Integers over the native numbers: what comparing counters needs.
use Prim.Native.Nat.{ℕ, ◌+◌, ◌-◌}
use mathlib.Core.Path.{◌≡◌}
use mathlib.Core.Bool.{Bool, true, false}
use native.Mathlib.Omega.{arith}
use rosplus.Base.Tests.{leb, nat_beq, if◌then◌else◌}

pub data ℤ : Type 0 where
  pos : ℕ → ℤ
  negsuc : ℕ → ℤ

-- The difference of two numbers.
abbrev pub sub_nat : ℕ → ℕ → ℤ
sub_nat m n = if leb n m then pos (m - n) else negsuc (n - m - 1)

infixl 65 ◌-ℤ◌
abbrev pub ◌-ℤ◌ : ℤ → ℤ → ℤ
pos m -ℤ pos n = sub_nat m n
pos m -ℤ negsuc n = pos (m + n + 1)
negsuc m -ℤ pos n = negsuc (m + n)
negsuc m -ℤ negsuc n = sub_nat n m

-- The integer `n` beyond another.
abbrev pub shift : ℤ → ℕ → ℤ
shift (pos m) n = pos (m + n)
shift (negsuc m) n = sub_nat n (m + 1)

abbrev pub is_pos : ℕ → ℤ → Bool
is_pos n (pos m) = nat_beq m n
is_pos n (negsuc m) = false

pub is_pos-sub : (a s : ℤ) (n : ℕ) → is_pos n (a -ℤ s) ≡ true → a ≡ shift s n
is_pos-sub (pos a) (pos s) n h = ground arith
is_pos-sub (pos a) (negsuc s) n h = ground arith
is_pos-sub (negsuc a) (pos s) n h = ground arith
is_pos-sub (negsuc a) (negsuc s) n h = ground arith

pub is_pos-shift : (s : ℤ) (n : ℕ) → is_pos n (shift s n -ℤ s) ≡ true
is_pos-shift (pos s) n = ground arith
is_pos-shift (negsuc s) n = ground arith

pub is_pos-sub_self : (s : ℤ) → is_pos 0 (s -ℤ s) ≡ true
is_pos-sub_self (pos s) = ground arith
is_pos-sub_self (negsuc s) = ground arith
