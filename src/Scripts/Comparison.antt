-- ===== src/Scripts/Comparison.antt =====
-- scripts/benchmark_compare.py: the two benchmarks, one after the other, and the report of both.
use rosplus.Base.{ℕ, String, ◌<>◌, Bool, not, ◌==◌, List, [], ◌∷◌, ◌++◌, if◌then◌else◌}
use rosplus.Base.Text.{decimal}
use rosplus.Exec.{Result, ok, raise, Act, lift, require, ◌>>=◌, ◌>>◌}
use rosplus.Exec.Errors.{other_error, value_error}
use rosplus.Json.{Json, bool, num, str, obj, end, field}
use rosplus.Json.Access.{item, type_error}
use rosplus.Models.{FilePath, path_text}
use rosplus.Paths.{name, parent}
use rosplus.Paths.Names.{split_name}
use rosplus.Process.Table.{ExitCode, is_zero}
use rosplus.Scripts.Dds.{Implementation, native, rclpy, implementation_name}

-- What the script uses of the system.
pub record Host : Type 1 where
  pub State : Type 0
  pub make_dirs : FilePath → State → Result (Unit {0}) × State
  -- `subprocess.run(cmd)`
  pub run : List String → State → Result ExitCode × State
  -- `json.loads(path.read_text())`
  pub load : FilePath → State → Result Json
  -- `path.write_text(json.dumps(…))`
  pub save : FilePath → Json → State → Result (Unit {0}) × State

-- The arguments, with the output as an absolute path, and where the interpreter and the script are.
pub record Options : Type 0 where
  pub output : FilePath
  pub messages : ℕ
  pub size : ℕ
  pub frequency : ℕ
  pub load : Bool
  pub fifo : Bool
  pub python : String
  pub script : String

-- `destination.with_name(destination.stem + "-" + implementation + ".json")`
unfoldable pub part_output : FilePath → Implementation → FilePath
unfolding name parent split_name
part_output destination i =
    parent destination
    ++ ((split_name (name destination)).stem <> ("-" <> (implementation_name i <> ".json"))) ∷ []

-- `cmd`
unfoldable pub command : Options → Implementation → List String
unfolding part_output decimal path_text
command o i =
    o.python
    ∷ o.script
    ∷ "--output"
    ∷ path_text (part_output o.output i)
    ∷ "--implementation"
    ∷ implementation_name i
    ∷ "--messages"
    ∷ decimal o.messages
    ∷ "--size"
    ∷ decimal o.size
    ∷ "--frequency"
    ∷ decimal o.frequency
    ∷ ((if o.load then "--load" ∷ [] else []) ++ (if o.fifo then "--fifo" ∷ [] else []))

-- `f"{j:9.2f}"`, but for the text
unfoldable pub format_float : Json → Result (Unit {0})
format_float (num n) = ok tt
format_float (bool b) = ok tt
format_float (str s) = raise (value_error "Unknown format code 'f' for object of type 'str'")
format_float _ = raise type_error

-- `f"{j:10}"`, but for the text
unfoldable pub format_wide : Json → Result (Unit {0})
format_wide (num n) = ok tt
format_wide (bool b) = ok tt
format_wide (str s) = ok tt
format_wide _ = raise type_error

-- An item in a row of the table.
unfoldable pub cell : (Json → Result (Unit {0})) → String → Json → Result (Unit {0})
unfolding item
cell format key r = elim (item key r) [ ok j ↦ format j | raise e ↦ raise e ]

abbrev pub results : Json → Json → Json
results a b = obj (
    field "scope"
      (str
        "same-host sequential comparison; one run per implementation, not a universal speed claim")
      (field "results" (obj (field "native" a (field "rclpy" b end))) end))

module _ (H : Host) where
  -- A round of the loop: the report of one benchmark.
  unfoldable pub measure : Options → Implementation → Act H.State Json
  unfolding name command is_zero part_output
  measure o i = do
    require (not (name o.output == "")) (value_error "has an empty name")
    code ← H.run (command o i)
    require (is_zero code) (other_error "CalledProcessError")
    λ s. (H.load (part_output o.output i) s, s)

  -- A row of the table, but for its text.
  unfoldable pub row : Json → Act H.State (Unit {0})
  unfolding cell format_float format_wide
  row r = do
    lift (cell format_float "p50_latency_us" r)
    lift (cell format_float "p95_latency_us" r)
    lift (cell format_float "p99_latency_us" r)
    lift (cell format_wide "received_messages" r)

  unfoldable pub compare : Options → Act H.State (Unit {0})
  unfolding parent measure row
  compare o = do
    H.make_dirs (parent o.output)
    a ← measure o native
    b ← measure o rclpy
    H.save o.output (results a b)
    row a
    row b
