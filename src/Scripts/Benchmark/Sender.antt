-- ===== src/Scripts/Benchmark/Sender.antt =====
-- The publisher of scripts/stock_benchmark.py: the texts that it sends.
pub mod Laws
use Prim.Native.String.{count}
use rosplus.Base.{ℕ, zero, suc, ◌-◌, String, ◌<>◌}
use rosplus.Base.Text.{decimal}

-- `'x'*n`
unfoldable pub padding : ℕ → String
padding zero = ""
padding (suc n) = "x" <> padding n

abbrev pub prefix_of : ℕ → ℕ → String
prefix_of number stamp = "rosplus-latency:" <> (decimal number <> (":" <> (decimal stamp <> ":")))

-- `publish`: the text of a message of at least `size` characters
unfoldable pub payload : ℕ → ℕ → ℕ → String
unfolding padding
payload size number stamp =
    let prefix = prefix_of number stamp in prefix <> padding (size - count prefix)
