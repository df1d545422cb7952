-- ===== src/Disk/Memory.antt =====
-- A file system in memory, without links: files by path, and directories as far as they are needed.
use text.Mathlib.TextPositions.{eq_refl}
use rosplus.Base.{
  ◌≡◌, refl, String, Bool, true, false, not, ◌&&◌, Option, none, some, List, [], ◌∷◌, ◌++◌, arith,
  ◌==◌, if◌then◌else◌,
}
use rosplus.Exec.{Result, ok, raise}
use rosplus.Exec.Errors.{other_error}
use rosplus.Models.{FilePath}
use rosplus.Paths.{path_beq, parent, name}
use rosplus.Paths.Names.{split_name}
use rosplus.Disk.{Disk, IsLawful}

-- `none` marks a directory.
abbrev pub Tree : Type 0
Tree = List (FilePath × Option String)

abbrev pub find : FilePath → Tree → Option (Option String)
find p [] = none
find p ((q, e) ∷ t) = if path_beq p q then some e else find p t

abbrev pub below : FilePath → FilePath → Bool
below [] _ = true
below (p ∷ ps) [] = false
below (p ∷ ps) (q ∷ qs) = p == q && below ps qs

abbrev pub contents_of : Option (Option String) → Result String
contents_of (some (some t)) = ok t
contents_of _ = raise (other_error "FileNotFoundError")

abbrev pub holds_file : Option (Option String) → Bool
holds_file (some (some t)) = true
holds_file _ = false

abbrev pub holds_dir : Option (Option String) → Bool
holds_dir (some none) = true
holds_dir _ = false

abbrev pub holds : Option (Option String) → Bool
holds (some e) = true
holds none = false

unfoldable pub normalize : FilePath → FilePath → FilePath
unfolding parent
normalize done [] = done
normalize done (p ∷ ps) = normalize (if p == ".." then parent done else done ++ p ∷ []) ps

unfoldable pub children : FilePath → Tree → List String
unfolding path_beq parent name
children p [] = []
children p ((q, _) ∷ t) =
    let rest = children p t in
    if path_beq (parent q) p && not (path_beq q []) then name q ∷ rest else rest

unfoldable pub globbed : FilePath → String → Tree → List FilePath
unfolding split_name name path_beq
globbed p suffix [] = []
globbed p suffix ((q, e) ∷ t) =
    let rest = globbed p suffix t in
    if below p q && (split_name (name q)).suffix == suffix then q ∷ rest else rest

unfoldable pub cleared : FilePath → Tree → Tree
cleared p [] = []
cleared p ((q, e) ∷ t) = let rest = cleared p t in if below p q then rest else (q, e) ∷ rest

path_beq_refl : (p : FilePath) → path_beq p p ≡ true
unfolding path_beq
path_beq_refl [] = refl
path_beq_refl (p ∷ ps) = ground (arith, eq_refl p, path_beq_refl ps)

abbrev pub memory : Disk
memory = record {
  State = Tree;
  resolve = λ s p. ok (normalize [] p);
  exists = λ s p. holds (find p s);
  is_dir = λ s p. holds_dir (find p s);
  is_file = λ s p. holds_file (find p s);
  contents = λ s p. contents_of (find p s);
  size = λ s p. ok 1;
  names = λ s p. ok (children p s);
  glob = λ s p suffix. ok (globbed p suffix s);
  mkdir = λ p s.
      if holds (find p s)
      then (raise (other_error "FileExistsError"), s)
      else (ok tt, (p, none) ∷ s);
  make_dirs = λ p s. if holds (find p s) then (ok tt, s) else (ok tt, (p, none) ∷ s);
  write_text = λ p t s. (ok tt, (p, some t) ∷ s);
  rmtree = λ p s. (ok tt, cleared p s);
}

pub memory-IsLawful : IsLawful memory
memory-IsLawful = record {
  contents-write = λ p t s s' h. ground (arith, path_beq_refl p);
  is_file-write = λ p t s s' h. ground (arith, path_beq_refl p);
  contents-write_ne = λ p q t s s' h n. ground arith;
  resolve-write = λ p q t s. refl;
  resolve-make_dirs = λ p q s. refl;
}
