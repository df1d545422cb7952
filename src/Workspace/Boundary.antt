-- ===== src/Workspace/Boundary.antt =====
-- `safe_path` of src/rosplus/workspace.py keeps every file method inside its workspace.
use text.Mathlib.TextPositions.{eq_refl}
use mathlib.Core.List.{append-nil}
use rosplus.Base.{
  ◌↔◌, String, ◌≡◌, refl, ◌⊎◌, inl, inr, true, ◌&&◌, List, [], ◌∷◌, ◌++◌, map, arith, eq_iff, ◌∙◌,
  sym, ◌==◌, if◌then◌else◌,
}
use rosplus.Exec.{ok}
use rosplus.Models.{FilePath, Workspace}
use rosplus.Paths.{path_beq, parents, member, child}
use rosplus.Disk.{Disk}
use rosplus.Workspace.Files.{safe_path}
use rosplus.Workspace.{relative_to}

-- `path` is `base` or lies below it.
pub record Inside (base path : FilePath) : Type 0 where
  pub rest : FilePath
  pub split : path ≡ base ++ rest

path_beq-eq : (p q : FilePath) → path_beq p q ≡ true → p ≡ q
unfolding path_beq
path_beq-eq [] [] h = refl
path_beq-eq [] (y ∷ ys) h = cc
path_beq-eq (x ∷ xs) [] h = cc
path_beq-eq (x ∷ xs) (y ∷ ys) h = ground (arith, eq_iff x y, path_beq-eq xs ys)

-- A path is among the prefixes of another with one more component exactly when both begin alike.
member-cons :
    (b p : String) (base : FilePath) (ps : List FilePath)
    → member (b ∷ base) (map (λ q. p ∷ q) ps) ≡ ((b == p) && member base ps)
unfolding member
member-cons b p base [] = ground arith
member-cons b p base (q ∷ ps) = ground (arith, member-cons b p base ps)

member-parents-Inside :
    (base path : FilePath) → member base (parents path) ≡ true → Inside base path
unfolding member parents
member-parents-Inside [] path h = record { rest = path; split = refl }
member-parents-Inside (b ∷ base) [] h = cc
member-parents-Inside (b ∷ base) (p ∷ path) h =
    let (e, m) = split_member b p base path h in
    let i = member-parents-Inside base path m in
    record { rest = i.rest; split = ground (arith, (eq_iff b p).0 e, i.split) }
  where
    split_member :
        (b p : String) (base path : FilePath)
        → member (b ∷ base) (parents (p ∷ path)) ≡ true
        → ((b == p) ≡ true) × (member base (parents path) ≡ true)
    split_member b p base path h = ground (arith, member-cons b p base (parents path))

path_beq_refl : (p : FilePath) → path_beq p p ≡ true
unfolding path_beq
path_beq_refl [] = refl
path_beq_refl (p ∷ ps) = ground (arith, eq_refl p, path_beq_refl ps)

-- A path below `base` is `base` itself, or has it among its parents.
pub Inside-member :
    (base rest : FilePath)
    → (path_beq (base ++ rest) base ≡ true) ⊎ (member base (parents (base ++ rest)) ≡ true)
unfolding member parents path_beq
Inside-member [] [] = inl refl
Inside-member [] (r ∷ rest) = inr refl
Inside-member (b ∷ base) rest =
    ground
      (arith, eq_refl b, member-cons b b base (parents (base ++ rest)), Inside-member base rest)

module _ (D : Disk) (d : D.State) (ws : Workspace) (relative : String) where
  accepted :
      {path : FilePath}
      → safe_path D d ws relative ≡ ok path
      → (path_beq path ws.path ≡ true) ⊎ (member ws.path (parents path) ≡ true)
  unfolding safe_path
  accepted h = ground arith

  pub safe_path-Inside :
      {path : FilePath} → safe_path D d ws relative ≡ ok path → Inside ws.path path
  safe_path-Inside {path} h = elim (accepted h) [
    | inl same ↦ record {
      rest = [];
      split = path_beq-eq path ws.path same ∙ sym (append-nil ws.path);
    }
    | inr below ↦ member-parents-Inside ws.path path below
  ]

  -- The place that the path leads to, through links and `..`.
  abbrev pub Resolves : FilePath → Type 0
  Resolves path = D.resolve d (child ws.path (if relative == "" then "." else relative)) ≡ ok path

  safe_path-Resolves : {path : FilePath} → safe_path D d ws relative ≡ ok path → Resolves path
  unfolding safe_path
  safe_path-Resolves h = ground arith

  Resolves-safe_path :
      {path : FilePath} → Resolves path → Inside ws.path path → safe_path D d ws relative ≡ ok path
  unfolding safe_path
  Resolves-safe_path {path} r i = ground (arith, rw (← i.split) at (Inside-member ws.path i.rest))

  -- `safe_path` gives a path exactly when it is the one that the argument resolves to, whatever links
  -- the file system has, and is the directory of the workspace or lies below it.
  pub safe_path_iff :
      (path : FilePath)
      → (safe_path D d ws relative ≡ ok path) ↔ (Resolves path × Inside ws.path path)
  safe_path_iff path =
      (λ h. (safe_path-Resolves h, safe_path-Inside h), λ (r, i). Resolves-safe_path r i)

relative_to-append : (base rest : FilePath) → relative_to base (base ++ rest) ≡ ok rest
unfolding relative_to
relative_to-append [] rest = refl
relative_to-append (b ∷ base) rest = ground (arith, eq_refl b, relative_to-append base rest)
