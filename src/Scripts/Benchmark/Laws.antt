-- ===== src/Scripts/Benchmark/Laws.antt =====
-- The quantiles of scripts/stock_benchmark.py are samples, and stand in order.
use rosplus.Base.{
  ℕ, zero, suc, ◌-◌, ◌≤◌, ◌<◌, ◌≡◌, refl, true, false, Option, none, some, List, [], ◌∷◌, length,
  arith,
}
use rosplus.Base.Int.{ℤ, pos, negsuc}
use rosplus.Base.Order.{IsSorted, sort-IsSorted}
use rosplus.Base.Sort.{sort}
use rosplus.Scripts.Benchmark.{Tally, Summary, summary, get_elem?, rank, percentile, int_le}

int_le_refl : (a : ℤ) → int_le a a ≡ true
int_le_refl (pos n) = ground arith
int_le_refl (negsuc n) = ground arith

int_le_total : (a b : ℤ) → int_le a b ≡ false → int_le b a ≡ true
int_le_total (pos a) (pos b) h = ground arith
int_le_total (pos a) (negsuc b) h = refl
int_le_total (negsuc a) (pos b) h = cc
int_le_total (negsuc a) (negsuc b) h = ground arith

int_le_trans : (a b c : ℤ) → int_le a b ≡ true → int_le b c ≡ true → int_le a c ≡ true
int_le_trans (pos a) (pos b) (pos c) h k = ground arith
int_le_trans (pos a) (pos b) (negsuc c) h k = cc
int_le_trans (pos a) (negsuc b) c h k = cc
int_le_trans (negsuc a) b (pos c) h k = refl
int_le_trans (negsuc a) (pos b) (negsuc c) h k = cc
int_le_trans (negsuc a) (negsuc b) (negsuc c) h k = ground arith

-- Both have a value, in this order, or neither has one.
abbrev pub OptionLe : Option ℤ → Option ℤ → Type 0
OptionLe none none = Unit
OptionLe (some a) (some b) = int_le a b ≡ true
OptionLe _ _ = ⊥

head-OptionLe :
    (x : ℤ) (xs : List ℤ) (j : ℕ)
    → IsSorted int_le (x ∷ xs)
    → j < length xs
    → OptionLe (some x) (get_elem? xs j)
unfolding get_elem?
head-OptionLe x [] j h inside = absurd (omega arith)
head-OptionLe x (y ∷ ys) zero h inside = h.0
head-OptionLe x (y ∷ []) (suc j) h inside = absurd (omega arith)
head-OptionLe x (y ∷ z ∷ zs) (suc j) h inside =
    head-OptionLe x (z ∷ zs) j (int_le_trans x y z h.0 h.1.0, h.1.1) (omega arith)

at-OptionLe :
    (xs : List ℤ) (i j : ℕ)
    → IsSorted int_le xs
    → i ≤ j
    → j < length xs
    → OptionLe (get_elem? xs i) (get_elem? xs j)
unfolding get_elem?
at-OptionLe [] i j h le inside = absurd (omega arith)
at-OptionLe (x ∷ xs) zero zero h le inside = int_le_refl x
at-OptionLe (x ∷ xs) zero (suc j) h le inside = head-OptionLe x xs j h (omega arith)
at-OptionLe (x ∷ xs) (suc i) zero h le inside = absurd (omega arith)
at-OptionLe (x ∷ xs) (suc i) (suc j) h le inside =
    at-OptionLe xs i j h.1 (omega arith) (omega arith)

-- The quantiles of a summary have values in order, or there is no sample and they have none.
abbrev pub InOrder : Summary → Type 0
InOrder s =
    OptionLe s.p50_latency s.p95_latency
    × OptionLe s.p95_latency s.p99_latency
    × OptionLe s.p99_latency s.max_latency

quantiles-OptionLe :
    (xs : List ℤ)
    → IsSorted int_le xs
    → OptionLe (percentile xs 1 2) (percentile xs 95 100)
      × OptionLe (percentile xs 95 100) (percentile xs 99 100)
      × OptionLe (percentile xs 99 100) (get_elem? xs (length xs - 1))
unfolding percentile rank get_elem?
quantiles-OptionLe [] h = (tt, tt, tt)
quantiles-OptionLe (x ∷ xs) h = (
  at-OptionLe (x ∷ xs) _ _ h (omega arith) (omega arith),
  at-OptionLe (x ∷ xs) _ _ h (omega arith) (omega arith),
  at-OptionLe (x ∷ xs) _ _ h (omega arith) (omega arith),
)

pub summary-InOrder : (messages : ℕ) (t : Tally) → InOrder (summary messages t)
unfolding summary
summary-InOrder messages t =
    quantiles-OptionLe (sort int_le t.latencies) (sort-IsSorted int_le int_le_total t.latencies)
