-- ===== src/Scripts/Dds.antt =====
-- scripts/benchmark_dds.py: the options, the commands, and what becomes of the report and the log.
-- The numbers among the options are not negative.
pub mod Load
pub mod Run
use rosplus.Base.{
  ℕ, String, ◌<>◌, Bool, true, false, Option, none, some, List, [], ◌∷◌, ◌++◌, ◌==◌, if◌then◌else◌,
}
use rosplus.Base.Text.{decimal}
use rosplus.Exec.{Result, ok, raise}
use rosplus.Exec.Errors.{other_error}
use rosplus.Json.{Json, num, str, arr, obj, Fields, end, field, get, put, array}

-- `--implementation`
pub data Implementation : Type 0 where
  native rclpy : Implementation

abbrev pub implementation_name : Implementation → String
implementation_name native = "native"
implementation_name rclpy = "rclpy"

pub record Options : Type 0 where
  pub output : String
  pub messages : ℕ
  pub size : ℕ
  pub frequency : ℕ
  pub implementation : Implementation
  pub fifo : Bool
  pub load : Bool

-- Where a benchmark runs: the directories, the adapter, the first four cores, and what the libraries
-- make of a line of JSON (`none` is `ValueError`) and of the samples as a percentage.
pub record Site : Type 0 where
  pub root : String
  pub directory : String
  pub adapter : String
  pub cores : List ℕ
  pub loads : String → Option Json
  pub percentage : List Json → Json

-- `command`
unfoldable pub binary_of : Site → Implementation → List String
binary_of e native = (e.root <> "/crates/target/release/rosplus-runtime") ∷ []
binary_of e rclpy = "python3" ∷ (e.root <> "/scripts/stock_benchmark.py") ∷ []

-- `common`
unfoldable pub common_args : Site → Options → List String
unfolding decimal
common_args e o =
    let base = "--messages" ∷ decimal o.messages ∷ "--quiet" ∷ [] in
    let adapted : List String = elim o.implementation [
      | native ↦ "--adapter" ∷ e.adapter ∷ base
      | rclpy ↦ base
    ] in
    if o.fifo then adapted ++ "--fifo" ∷ [] else adapted

unfoldable pub subscribe_command : Site → Options → List String
unfolding binary_of common_args
subscribe_command e o =
    binary_of e o.implementation
    ++ "dds-subscribe" ∷ common_args e o
    ++ "--latency-report" ∷ (e.directory <> "/latency.json") ∷ "--timeout-seconds" ∷ "30" ∷ []

unfoldable pub publish_command : Site → Options → List String
unfolding binary_of common_args decimal
publish_command e o =
    binary_of e o.implementation
    ++ "dds-publish" ∷ common_args e o
    ++ "--latency-payload" ∷ "--size" ∷ decimal o.size ∷ "--frequency" ∷ decimal o.frequency ∷ []

-- `result[key] = value`
unfoldable pub set_item : String → Json → Json → Result Json
unfolding put
set_item key value (obj fs) = ok (obj (put key value fs))
set_item key value _ = raise (other_error "TypeError")

abbrev is_summary : Option Json → Bool
is_summary (some (str text)) = text == "publisher_summary"
is_summary _ = false

-- A line that is JSON, but no object, has no `get`.
unfoldable pub noted : Option Json → Json → Result Json
unfolding get set_item
noted none result = ok result
noted (some (obj fs)) result =
    if is_summary (get "event" fs) then set_item "publisher" (obj fs) result else ok result
noted (some _) result = raise (other_error "AttributeError")

-- `for line in log`
unfoldable pub note_lines : (String → Option Json) → List String → Json → Result Json
unfolding noted
note_lines loads [] result = ok result
note_lines loads (line ∷ lines) result = elim (noted (loads line) result) [
  | ok next ↦ note_lines loads lines next
  | raise e ↦ raise e
]

-- A log that ends in a line feed has no line after it.
abbrev pub whole_lines : List String → List String
whole_lines [] = []
whole_lines (line ∷ []) = if line == "" then [] else line ∷ []
whole_lines (line ∷ next ∷ lines) = line ∷ whole_lines (next ∷ lines)

-- `result.update(…)`
unfoldable pub configured : Options → Json → Result Json
unfolding put
configured o (obj fs) = ok (
    obj (
      put "configured_frequency_hz" (num o.frequency) (
        put "message_size_bytes" (num o.size)
          (put "implementation" (str (implementation_name o.implementation)) fs))))
configured o _ = raise (other_error "AttributeError")

abbrev pub load_of : Site → List Json → Json
load_of e samples = obj (
    field "target_background_percent" (num 82) (
      field "affinity_cpus" (arr (array num e.cores)) (
        field "workers" (arr (array (λ j. j) samples))
          (field "measured_background_percent" (e.percentage samples) end))))
