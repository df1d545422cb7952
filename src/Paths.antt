-- ===== src/Paths.antt =====
-- What the program takes of `pathlib`: absolute paths by their components.
pub mod Names
use Prim.Native.Char.{Char, code}
use rosplus.Base.{
  ℕ, String, Bool, true, false, ◌||◌, ◌&&◌, List, [], ◌∷◌, ◌++◌, map, ◌==◌, nat_beq, any,
  if◌then◌else◌,
}
use rosplus.Models.{FilePath}

abbrev pub push : Char → List String → List String
push c [] = String.◌∷◌ c "" ∷ []
push c (p ∷ ps) = String.◌∷◌ c p ∷ ps

-- `s.split(sep)` at a separator of one character, given by its number
unfoldable pub split : ℕ → String → List String
split sep String.[] = "" ∷ []
split sep (String.◌∷◌ c s) =
    let rest = split sep s in if nat_beq (code c) sep then "" ∷ rest else push c rest

-- The components that a path keeps: the empty ones and `.` are dropped.
abbrev keep : List String → List String
keep [] = []
keep (p ∷ ps) = if p == "" || p == "." then keep ps else p ∷ keep ps

unfoldable pub parts : String → List String
unfolding split
parts s = keep (split b'/' s)

abbrev is_absolute : String → Bool
is_absolute String.[] = false
is_absolute (String.◌∷◌ c _) = nat_beq (code c) b'/'

-- `base / relative`, where an absolute `relative` replaces the base
unfoldable pub child : FilePath → String → FilePath
unfolding parts
child base relative = if is_absolute relative then parts relative else base ++ parts relative

unfoldable pub path_beq : FilePath → FilePath → Bool
path_beq [] [] = true
path_beq (p ∷ ps) (q ∷ qs) = p == q && path_beq ps qs
path_beq _ _ = false

-- `path.parents`, as a set: from the root down
unfoldable pub parents : FilePath → List FilePath
parents [] = []
parents (p ∷ ps) = [] ∷ map (λ q. p ∷ q) (parents ps)

-- `path in paths`
unfoldable pub member : FilePath → List FilePath → Bool
unfolding path_beq
member p paths = any (path_beq p) paths

-- `path.parent`
unfoldable pub parent : FilePath → FilePath
parent [] = []
parent (p ∷ []) = []
parent (p ∷ q ∷ rest) = p ∷ parent (q ∷ rest)

-- `path.name`
unfoldable pub name : FilePath → String
name [] = ""
name (p ∷ []) = p
name (p ∷ q ∷ rest) = name (q ∷ rest)
