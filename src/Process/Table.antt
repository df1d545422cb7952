-- ===== src/Process/Table.antt =====
-- `processes`: the dict from identifier and node name to the `Popen` object.
use rosplus.Base.{
  ℕ, String, ◌<>◌, ◌≡◌, refl, Bool, true, false, ◌&&◌, Option, none, some, List, [], ◌∷◌, arith,
  eq_iff, ◌==◌, nat_beq, if◌then◌else◌,
}
use rosplus.Base.Text.{decimal}

-- How a process ended: with a status, or by a signal, whose code is the negated number.
pub data ExitCode : Type 0 where
  exited : ℕ → ExitCode
  signalled : ℕ → ExitCode

-- `code == 0`; there is no signal 0
unfoldable pub is_zero : ExitCode → Bool
is_zero (exited n) = nat_beq n 0
is_zero (signalled n) = false

unfoldable pub code_text : ExitCode → String
code_text (exited n) = decimal n
code_text (signalled n) = "-" <> decimal n

-- A `Popen` object: `poll` is what `poll()` gives, `none` while the process lives.
pub record Popen : Type 0 where
  pub pid : ℕ
  pub poll : Option ExitCode

abbrev pub is_live : Option Popen → Bool
is_live none = false
is_live (some p) = elim p.poll [ none ↦ true | some _ ↦ false ]

pub record Key : Type 0 where
  pub ident : String
  pub node : String

abbrev pub Processes : Type 0
Processes = List (Key × Popen)

abbrev pub same : Key → Key → Bool
same a b = a.ident == b.ident && a.node == b.node

unfoldable pub process_at : Key → Processes → Option Popen
process_at k [] = none
process_at k ((j, p) ∷ t) = if same j k then some p else process_at k t

unfoldable pub set_process : Key → Popen → Processes → Processes
set_process k p [] = (k, p) ∷ []
set_process k p ((j, q) ∷ t) = if same j k then (k, p) ∷ t else (j, q) ∷ set_process k p t

pub process_at-set_process :
    (k j : Key) (p : Popen) (t : Processes)
    → process_at j (set_process k p t) ≡ (if same k j then some p else process_at j t)
unfolding process_at set_process
process_at-set_process k j p [] = refl
process_at-set_process k j p ((i, q) ∷ t) = ground (
  arith,
  eq_iff k.ident j.ident,
  eq_iff k.node j.node,
  eq_iff i.ident k.ident,
  eq_iff i.node k.node,
  eq_iff i.ident j.ident,
  eq_iff i.node j.node,
  process_at-set_process k j p t,
)
