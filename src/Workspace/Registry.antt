-- ===== src/Workspace/Registry.antt =====
-- `create`, `get` and `delete` of src/rosplus/workspace.py on the registry.
pub mod Kept
use text.Mathlib.TextPositions.{eq_refl}
use rosplus.Base.{
  String, ◌≡◌, ◌≢◌, refl, sym, subst, Bool, true, false, List, [], ◌∷◌, any, arith, eq_iff, none,
  some, ◌==◌, if◌then◌else◌, inl, inr, Option-cases,
}
use rosplus.Base.Dict
use rosplus.Base.Dict.{Dict, get-put, get-remove}
use rosplus.Exec.{Result, ok, raise, Result-cases}
use rosplus.Exec.Errors.{Exception, workspace_error, workspace_not_found, running_nodes}
use rosplus.Models.{FilePath, Workspace}
use rosplus.Paths.{child, parent}
use rosplus.Disk.{Disk}
use rosplus.Workspace.{
  Manager, Env, get, write_files, create, delete, name_taken, has_running, new_workspace,
}
use rosplus.Workspace.Templates.{valid_name, template_files}

module _ (D : Disk) where
  -- The files of a template change the file system alone.
  items-write_files :
      (base : FilePath) (fs : List (String × String)) (m : Manager D)
      → (write_files D base fs m).1.items ≡ m.items
  unfolding write_files
  items-write_files base [] m = refl
  items-write_files base ((relative, content) ∷ fs) m =
      let m1 : Manager D = record m {
        disk = (D.make_dirs (parent (child base relative)) m.disk).1;
      } in
      let m2 : Manager D = record m1 {
        disk = (D.write_text (child base relative) content m1.disk).1;
      } in
      ground (arith, items-write_files base fs m2)

module _ (D : Disk) (env : Env) (name template : String) (m : Manager D) where
  create-items :
      {w : Workspace} {m' : Manager D}
      → create D env name template m ≡ (ok w, m')
      → (valid_name name ≡ true)
        × (name_taken D name m ≡ false)
        × (m'.items ≡ Dict.put env.uuid w m.items)
        × (w ≡ new_workspace D env (child m.root env.uuid) name template)
  unfolding create
  create-items h = elim (Option-cases (template_files template)) [
    | inl missing ↦ ground arith
    | inr (files, found) ↦
        let path = child m.root env.uuid in
        let m1 : Manager D = record m { disk = (D.mkdir path m.disk).1 } in
        ground (arith, items-write_files D path files m1)
  ]

  pub create_failed :
      {e : Exception}
      → (create D env name template m).0 ≡ raise e
      → (create D env name template m).1.items ≡ m.items
  unfolding create
  create_failed h = elim (Option-cases (template_files template)) [
    | inl missing ↦ ground arith
    | inr (files, found) ↦
        let path = child m.root env.uuid in
        let m1 : Manager D = record m { disk = (D.mkdir path m.disk).1 } in
        ground (arith, items-write_files D path files m1)
  ]

  -- What holds of a `create` that returned `w` and left `m'`.
  abbrev pub Created : Workspace → Manager D → Type 0
  Created w m' =
      (valid_name name ≡ true)
      × (name_taken D name m ≡ false)
      × ((j : String)
          → Dict.get j m'.items ≡ (if env.uuid == j then some w else Dict.get j m.items))
      × (w.name ≡ name)
      × (w.id ≡ env.uuid)

  pub create-get :
      {w : Workspace} {m' : Manager D} → create D env name template m ≡ (ok w, m') → Created w m'
  unfolding new_workspace
  create-get {w} h =
      let (valid, free, items, made) = create-items h in
      (valid, free, λ j. rw items (get-put env.uuid j w m.items), rw made, rw made)

  -- What a `create` came to.
  abbrev pub Outcome : Result Workspace × Manager D → Type 0
  Outcome (ok w, m') = Created w m'
  Outcome (raise e, m') = m'.items ≡ m.items

  -- A successful `create` had a valid name that no workspace had. The registry then gives the new
  -- workspace at its identifier, and gives what it gave at every other. A `create` that raises
  -- leaves the registry as it was, whatever it wrote to the disk.
  pub create-Outcome : Outcome (create D env name template m)
  create-Outcome = elim (Result-cases (create D env name template m).0) [
    | inl (w, returned) ↦
        let m' = (create D env name template m).1 in
        let is : create D env name template m ≡ (ok w, m') = λ i. (returned i, m') in
        subst Outcome (sym is) (create-get is)
    | inr (e, raised) ↦
        let m' = (create D env name template m).1 in
        let is : create D env name template m ≡ (raise e, m') = λ i. (raised i, m') in
        subst Outcome (sym is) (create_failed raised)
  ]

-- What the registry keeps: a workspace stands under its identifier, and no two share a name.
pub record IsRegistered {D : Disk} (m : Manager D) : Type 0 where
  pub keyed : (i : String) (w : Workspace) → Dict.get i m.items ≡ some w → w.id ≡ i
  pub unique :
      (i j : String) (v w : Workspace)
      → Dict.get i m.items ≡ some v
      → Dict.get j m.items ≡ some w
      → v.name ≡ w.name
      → i ≡ j

any-values-get :
    (p : Workspace → Bool) (d : Dict Workspace) (k : String) {w : Workspace}
    → any p (Dict.values d) ≡ false
    → Dict.get k d ≡ some w
    → p w ≡ false
unfolding Dict.get
any-values-get p [] k free h = cc
any-values-get p ((j, v) ∷ d) k {w} free h = ground (arith, any-values-get p d k {w = w})

module _ (D : Disk) (env : Env) (name template : String) (m : Manager D) where
  -- In a registry whose names are distinct, a new name differs from all.
  fresh_name :
      (j : String) (v : Workspace)
      → name_taken D name m ≡ false
      → Dict.get j m.items ≡ some v
      → v.name ≢ name
  fresh_name j v free h e = ground (
    arith,
    any-values-get (λ (x : Workspace). x.name == name) m.items j free h,
    eq_iff v.name name,
  )

  create-IsRegistered_ok :
      {w : Workspace} {m' : Manager D}
      → IsRegistered m
      → create D env name template m ≡ (ok w, m')
      → IsRegistered m'
  create-IsRegistered_ok {w} h made =
      let (valid, free, at, named, ident) = create-get D env name template m made in
      record {
        keyed = λ i v e. ground (arith, at i, h.keyed i v, eq_iff env.uuid i);
        unique = λ i j v v' ei ej e. ground (
          arith,
          at i,
          at j,
          h.unique i j v v',
          eq_iff env.uuid i,
          eq_iff env.uuid j,
          fresh_name i v free,
          fresh_name j v' free,
        );
      }

  -- `create`, whether it returns or raises, keeps the names of the workspaces distinct and every
  -- workspace under its identifier.
  pub create-IsRegistered : IsRegistered m → IsRegistered (create D env name template m).1
  create-IsRegistered h = elim (Result-cases (create D env name template m).0) [
    | inl (w, e) ↦ create-IsRegistered_ok h (λ i. (e i, (create D env name template m).1))
    | inr (x, e) ↦ record {
      keyed = rw (create_failed D env name template m e) h.keyed;
      unique = rw (create_failed D env name template m e) h.unique;
    }
  ]

module _ (D : Disk) (ident : String) (m : Manager D) where
  -- `delete` refuses while a node of the workspace is running, and then touches nothing.
  pub delete_refused :
      {w : Workspace}
      → Dict.get ident m.items ≡ some w
      → has_running w ≡ true
      → delete D ident m ≡ (raise (workspace_error running_nodes), m)
  unfolding delete
  delete_refused found busy = rw (found, busy)

  pub delete-items :
      {w : Workspace} {m' : Manager D}
      → delete D ident m ≡ (ok w, m')
      → (Dict.get ident m.items ≡ some w)
        × (has_running w ≡ false)
        × (m'.items ≡ Dict.remove ident m.items)
  unfolding delete
  delete-items h = elim (Option-cases (Dict.get ident m.items)) [
    | inl missing ↦ ground arith
    | inr (w, found) ↦ ground arith
  ]

  -- What holds of a `delete` that returned `w` and left `m'`.
  abbrev pub Deleted : Workspace → Manager D → Type 0
  Deleted w m' =
      (has_running w ≡ false)
      × (get D ident m' ≡ (raise (workspace_error workspace_not_found), m'))
      × ((j : String) → Dict.get j m'.items ≡ (if ident == j then none else Dict.get j m.items))

  -- A successful `delete` removed a workspace with no running node. Afterwards its identifier is
  -- not found, and every other gives what it gave.
  pub delete-get : {w : Workspace} {m' : Manager D} → delete D ident m ≡ (ok w, m') → Deleted w m'
  unfolding get
  delete-get {m'} h =
      let (found, quiet, items) = delete-items h in
      (
        quiet,
        rw (items, get-remove ident ident m.items, eq_refl ident),
        λ j. rw items (get-remove ident j m.items),
      )
