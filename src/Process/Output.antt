-- ===== src/Process/Output.antt =====
-- The whole of `ProcessManager._capture` in src/rosplus/process.py, on the object of the workspace,
-- which it holds also when the registry has dropped it. Each line comes with the time of its log.
pub mod Laws
use Prim.Native.Char.{Char, code}
use rosplus.Base.{
  ℕ, String, Bool, true, false, ◌&&◌, ◌||◌, List, [], ◌∷◌, any, leb, nat_beq, ◌==◌, if◌then◌else◌,
}
use rosplus.Models.{Workspace}
use rosplus.Process.Table.{ExitCode}
use rosplus.Process.Stop.{capture_line, capture_exit}

abbrev between : ℕ → ℕ → ℕ → Bool
between lo hi n = leb lo n && leb n hi

-- `str.isspace`
unfoldable pub is_space : ℕ → Bool
is_space n =
    between 9 13 n
    || between 28 32 n
    || between 0x2000 0x200a n
    || any (nat_beq n) (0x85 ∷ 0xa0 ∷ 0x1680 ∷ 0x2028 ∷ 0x2029 ∷ 0x202f ∷ 0x205f ∷ 0x3000 ∷ [])

-- `line.rstrip()`
unfoldable pub rstrip : String → String
unfolding is_space
rstrip String.[] = ""
rstrip (String.◌∷◌ c s) =
    let rest = rstrip s in if rest == "" && is_space (code c) then "" else String.◌∷◌ c rest

-- The loop over the lines of the output.
unfoldable pub capture_lines : String → List (String × String) → Workspace → Workspace
unfolding capture_line rstrip
capture_lines name [] w = w
capture_lines name ((utc, line) ∷ lines) w =
    capture_lines name lines (capture_line utc name (rstrip line) w)

unfoldable pub capture : String → List (String × String) → String → ExitCode → Workspace → Workspace
unfolding capture_lines capture_exit
capture name lines utc exit w = capture_exit utc name exit (capture_lines name lines w)
