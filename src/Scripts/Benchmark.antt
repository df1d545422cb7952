-- ===== src/Scripts/Benchmark.antt =====
-- The subscriber of scripts/stock_benchmark.py: the samples that messages give, and the percentiles
-- of the result. Latencies are whole nanoseconds; a quantile is a fraction of two numbers. What `int`
-- makes of a text is an argument, and `none` is its `ValueError`.
pub mod Laws
pub mod Sender
pub mod Subscriber
pub mod Publisher
use Prim.Native.Char.{code}
use rosplus.Base.{
  ℕ, zero, suc, ◌+◌, ◌-◌, ◌*◌, ◌/◌, String, ◌<>◌, Bool, true, false, ◌&&◌, Option, none, some, List,
  [], ◌∷◌, ◌++◌, length, leb, ltb, ◌==◌, nat_beq, if◌then◌else◌,
}
use rosplus.Base.Sort.{sort}
use rosplus.Base.Int.{ℤ, pos, ◌-ℤ◌, negsuc}
use rosplus.Base.Text.{decimal}
use rosplus.Paths.{split}
use rosplus.Exec.{Result, ok, raise}
use rosplus.Exec.Errors.{Exception, permission_error, other_error}

-- `count` and `latencies`
pub record Tally : Type 0 where
  pub count : ℕ
  pub latencies : List ℤ

-- The third piece of a message that the benchmark sent: `data.split(":", 3)` has four pieces when
-- there are three colons or more, and the first is the mark.
abbrev pub sent_at : List String → Option String
sent_at (mark ∷ _ ∷ stamp ∷ _ ∷ _) = if mark == "rosplus-latency" then some stamp else none
sent_at _ = none

-- `received`; a stamp that is no number raises before the message is counted
unfoldable pub received : (String → Option ℤ) → ℕ → String → Tally → Result Tally
unfolding split
received int timestamp message t = elim (sent_at (split b':' message)) [
  | none ↦ ok (record t { count = t.count + 1 })
  | some stamp ↦ elim (int stamp) [
    | none ↦ raise (other_error "ValueError")
    | some sent ↦
        ok (record { count = t.count + 1; latencies = t.latencies ++ (pos timestamp -ℤ sent) ∷ [] })
  ]
]

-- `xs[n]`
unfoldable pub get_elem? {ℓ} : {A : Type ℓ} → List A → ℕ → Option A
get_elem? [] n = none
get_elem? (x ∷ xs) zero = some x
get_elem? (x ∷ xs) (suc n) = get_elem? xs n

-- `math.ceil((len(latencies) - 1) * q)` for the quantile `num / den`
unfoldable pub rank : ℕ → ℕ → ℕ → ℕ
rank n num den = ((n - 1) * num + (den - 1)) / den

-- `percentile`, on the sorted samples
unfoldable pub percentile : List ℤ → ℕ → ℕ → Option ℤ
percentile [] num den = none
percentile (x ∷ xs) num den = get_elem? (x ∷ xs) (rank (length (x ∷ xs)) num den)

abbrev pub int_le : ℤ → ℤ → Bool
int_le (pos a) (pos b) = leb a b
int_le (pos a) (negsuc b) = false
int_le (negsuc a) (pos b) = true
int_le (negsuc a) (negsuc b) = leb b a

pub record Summary : Type 0 where
  pub expected_messages : ℕ
  pub received_messages : ℕ
  pub latency_samples : ℕ
  pub p50_latency : Option ℤ
  pub p95_latency : Option ℤ
  pub p99_latency : Option ℤ
  pub max_latency : Option ℤ

-- The numbers of `result`.
unfoldable pub summary : ℕ → Tally → Summary
unfolding percentile
summary expected t =
    let sorted = sort int_le t.latencies in
    record {
      expected_messages = expected;
      received_messages = t.count;
      latency_samples = length sorted;
      p50_latency = percentile sorted 1 2;
      p95_latency = percentile sorted 95 100;
      p99_latency = percentile sorted 99 100;
      max_latency = get_elem? sorted (length sorted - 1);
    }

-- The text of the `RuntimeError` that ends either part.
abbrev pub too_few : ℕ → ℕ → String
too_few count messages = "only processed " <> (decimal count <> ("/" <> decimal messages))

-- `scheduling`
pub record Scheduling : Type 0 where
  pub soft_rt : Bool
  pub warnings : List String

-- The texts of `OSError`, of which `PermissionError` is one.
abbrev os_error_text : Exception → Option String
os_error_text (permission_error text) = some text
os_error_text (other_error text) = if text == "OSError" then some text else none
os_error_text _ = none

abbrev refused_fifo : {W : Type 0} → Exception → W → Result Scheduling × W
refused_fifo e w = elim (os_error_text e) [
  | some text ↦ (ok (record { soft_rt = false; warnings = text ∷ [] }), w)
  | none ↦ (raise e, w)
]

-- `--fifo`, where `set` is `os.sched_setscheduler`
unfoldable pub schedule :
    {W : Type 0} → (W → Result (Unit {0}) × W) → Bool → W → Result Scheduling × W
schedule set false w = (ok (record { soft_rt = false; warnings = [] }), w)
schedule set true w =
    let (r, w') = set w in
    elim r [
      | ok _ ↦ (ok (record { soft_rt = true; warnings = [] }), w')
      | raise e ↦ refused_fifo e w'
    ]
