-- ===== src/Workspace/Listing.antt =====
-- `list_files` of src/rosplus/workspace.py: what it returns, and that it only reads.
use Prim.Native.String.{compare}
use text.Mathlib.Text.{is_le}
use mathlib.Core.List.{Perm}
use rosplus.Base.{
  String, ◌≡◌, ◌⊎◌, sym, ◌∙◌, Bool-cases, refl, some, true, false, List, [], ◌∷◌, map, arith, inl,
  inr, Option-cases,
}
use rosplus.Base.Dict
use rosplus.Base.Sort.{sort, sort-perm}
use rosplus.Base.Order.{IsSorted, sort-IsSorted}
use rosplus.Base.TextOrder.{is_le_total}
use rosplus.Exec.{ok, Result-cases}
use rosplus.Models.{FilePath, Workspace}
use rosplus.Disk.{Disk}
use rosplus.Workspace.{Manager, FileInfo}
use rosplus.Workspace.Files.{safe_path, list_files, describe_all, Item, item_le, item_of}

-- The key of an entry of the list.
abbrev pub item_of_entry : FileInfo → Item
item_of_entry f = record { file_name = f.file_name; is_dir = f.is_directory }

item_le_total :
    (lower : String → String) (a b : Item) → item_le lower a b ≡ false → item_le lower b a ≡ true
unfolding item_le
item_le_total lower a b h = ground (arith, is_le_total (lower a.file_name) (lower b.file_name))

-- An entry may stand before another: a directory before a file, and two of a kind by their names in
-- lower case.
abbrev pub Before : (String → String) → FileInfo → FileInfo → Type 0
Before lower a b =
    ((a.is_directory ≡ true) × (b.is_directory ≡ false))
    ⊎ ((a.is_directory ≡ b.is_directory)
        × (is_le (compare (lower a.file_name) (lower b.file_name)) ≡ true))

abbrev pub InOrder : (String → String) → List FileInfo → Type 0
InOrder lower [] = Unit
InOrder lower (a ∷ []) = Unit
InOrder lower (a ∷ b ∷ rest) = Before lower a b × InOrder lower (b ∷ rest)

item_le-Before :
    (lower : String → String) (a b : FileInfo)
    → item_le lower (item_of_entry a) (item_of_entry b) ≡ true
    → Before lower a b
unfolding item_le
item_le-Before lower a b h = elim (Bool-cases a.is_directory) [
  | inl first ↦ elim (Bool-cases b.is_directory) [
    | inl second ↦ inr (first ∙ sym second, ground arith)
    | inr second ↦ inl (first, second)
  ]
  | inr first ↦ elim (Bool-cases b.is_directory) [
    | inl second ↦ absurd (ground arith)
    | inr second ↦ inr (first ∙ sym second, ground arith)
  ]
]

IsSorted-InOrder :
    (lower : String → String) (l : List FileInfo)
    → IsSorted (item_le lower) (map item_of_entry l)
    → InOrder lower l
IsSorted-InOrder lower [] h = tt
IsSorted-InOrder lower (a ∷ []) h = tt
IsSorted-InOrder lower (a ∷ b ∷ rest) h =
    (item_le-Before lower a b h.0, IsSorted-InOrder lower (b ∷ rest) h.1)

module _ (D : Disk) (lower : String → String) (utc : String) where
  state-describe_all :
      (ws : Workspace) (base : FilePath) (items : List Item) (m : Manager D)
      → (describe_all D utc ws base items m).1 ≡ m
  unfolding describe_all
  state-describe_all ws base [] m = refl
  state-describe_all ws base (item ∷ items) m = ground (arith, state-describe_all ws base items m)

  pub state-list_files :
      (ident relative : String) (m : Manager D) → (list_files D lower utc ident relative m).1 ≡ m
  unfolding list_files
  state-list_files ident relative m = elim (Option-cases (Dict.get ident m.items)) [
    | inl missing ↦ ground arith
    | inr (ws, found) ↦ elim (Result-cases (safe_path D m.disk ws relative)) [
      | inr (e, refused) ↦ ground arith
      | inl (base, safe) ↦ elim (Result-cases (D.names m.disk base)) [
        | inr (e, unread) ↦ ground arith
        | inl (names, read) ↦ ground (
          arith,
          state-describe_all ws base (sort (item_le lower) (map (item_of D m.disk base) names)) m,
        )
      ]
    ]
  ]

  -- Each item of the list makes one entry, in order.
  items-describe_all :
      (ws : Workspace) (base : FilePath) (items : List Item) (m : Manager D) {l : List FileInfo}
      → (describe_all D utc ws base items m).0 ≡ ok l
      → map item_of_entry l ≡ items
  unfolding describe_all
  items-describe_all ws base [] m h = ground arith
  items-describe_all ws base (item ∷ items) m {l} h =
      elim (Result-cases (describe_all D utc ws base items m).0) [
        | inr (e, g) ↦ absurd (ground (arith, state-describe_all ws base items m))
        | inl (rest, g) ↦ ground (arith, items-describe_all ws base items m {l = rest} g)
      ]

  -- What holds of a listing of `relative` that returned `l`.
  pub record Listed (ident relative : String) (m : Manager D) (l : List FileInfo) : Type 0 where
    pub ws : Workspace
    pub base : FilePath
    pub names : List String
    pub found : Dict.get ident m.items ≡ some ws
    pub safe : safe_path D m.disk ws relative ≡ ok base
    pub read : D.names m.disk base ≡ ok names
    pub complete : Perm (map item_of_entry l) (map (item_of D m.disk base) names)
    pub in_order : InOrder lower l

  -- A listing that returned has one entry for every name of the directory, marked as a directory if
  -- it is one, and no other; directories come first, and both they and the files by their names in
  -- lower case. The directory is the one that `safe_path` gives.
  pub list_files-Listed :
      (ident relative : String) (m : Manager D) {l : List FileInfo}
      → (list_files D lower utc ident relative m).0 ≡ ok l
      → Listed ident relative m l
  unfolding list_files
  list_files-Listed ident relative m {l} h = elim (Option-cases (Dict.get ident m.items)) [
    | inl missing ↦ absurd (ground arith)
    | inr (ws, found) ↦ elim (Result-cases (safe_path D m.disk ws relative)) [
      | inr (e, refused) ↦ absurd (ground arith)
      | inl (base, safe) ↦ elim (Result-cases (D.names m.disk base)) [
        | inr (e, unread) ↦ absurd (ground arith)
        | inl (names, read) ↦
            let items = map (item_of D m.disk base) names in
            let is : map item_of_entry l ≡ sort (item_le lower) items =
              items-describe_all ws base (sort (item_le lower) items) m (ground arith) in
            record {
              ws = ws;
              base = base;
              names = names;
              found = found;
              safe = safe;
              read = read;
              complete = rw is (sort-perm (item_le lower) items);
              in_order =
                  IsSorted-InOrder lower l
                    (rw is (sort-IsSorted (item_le lower) (item_le_total lower) items));
            }
      ]
    ]
  ]
