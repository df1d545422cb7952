-- ===== src/Paths/Names.antt =====
-- `stem` and `suffix` of a file's name, and `str.lower` on ASCII.
use Prim.Native.Char.{Char, code}
use rosplus.Base.{String, ◌||◌, Option, none, some, ◌==◌, nat_beq, if◌then◌else◌}

pub record Split : Type 0 where
  pub stem : String
  pub suffix : String

-- The name before its last dot and the dot with what follows, if the name has a dot.
last_dot : String → Option Split
last_dot String.[] = none
last_dot (String.◌∷◌ c s) = elim (last_dot s) [
  | some r ↦ some (record r { stem = String.◌∷◌ c r.stem })
  | none ↦
      if nat_beq (code c) b'.' then some (record { stem = ""; suffix = String.◌∷◌ c s }) else none
]

-- A dot in the first or the last place makes no suffix.
unfoldable pub split_name : String → Split
unfolding last_dot
split_name name = elim (last_dot name) [
  | none ↦ record { stem = name; suffix = "" }
  | some r ↦ if r.stem == "" || r.suffix == "." then record { stem = name; suffix = "" } else r
]

abbrev translate : String → String → Char → Char
translate (String.◌∷◌ a as_) (String.◌∷◌ b bs) c =
    if nat_beq (code a) (code c) then b else translate as_ bs c
translate _ _ c = c

unfoldable pub lower : String → String
lower String.[] = ""
lower (String.◌∷◌ c s) =
    String.◌∷◌ (translate "ABCDEFGHIJKLMNOPQRSTUVWXYZ" "abcdefghijklmnopqrstuvwxyz" c) (lower s)
