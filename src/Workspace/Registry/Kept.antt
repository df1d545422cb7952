-- ===== src/Workspace/Registry/Kept.antt =====
-- The registry of src/rosplus/workspace.py under `delete` and `write_file`.
use rosplus.Base.{
  String, ◌<>◌, ◌≡◌, ◌⊎◌, refl, ap, ◌∙◌, some, arith, inl, inr, eq_iff, Option-cases,
}
use rosplus.Base.Dict
use rosplus.Base.Dict.{Dict, get-put, get-remove}
use rosplus.Exec.{raise, Result-cases}
use rosplus.Exec.Errors.{Exception}
use rosplus.Models.{Workspace, info, log}
use rosplus.Models.Bounded.{log_frame}
use rosplus.Paths.{parent}
use rosplus.Disk.{Disk}
use rosplus.Workspace.{Manager, delete}
use rosplus.Workspace.Files.{safe_path, write_file}
use rosplus.Workspace.Registry.{IsRegistered, delete-items}

module _ (D : Disk) where
  -- A registry of which the lookups are those of another, less some, is as well-formed.
  IsRegistered-remove :
      (ident : String) (m m' : Manager D)
      → m'.items ≡ Dict.remove ident m.items
      → IsRegistered m
      → IsRegistered m'
  IsRegistered-remove ident m m' e h = record {
    keyed = λ i w found. ground (arith, rw e at found, get-remove ident i m.items, h.keyed i w);
    unique = λ i j v w ei ej same. ground (
      arith,
      rw e at ei,
      rw e at ej,
      get-remove ident i m.items,
      get-remove ident j m.items,
      h.unique i j v w,
    );
  }

  -- A workspace put under its identifier in place of one of the same name keeps the registry.
  pub IsRegistered-put :
      (old new : Workspace) (m m' : Manager D)
      → m'.items ≡ Dict.put new.id new m.items
      → Dict.get new.id m.items ≡ some old
      → new.name ≡ old.name
      → IsRegistered m
      → IsRegistered m'
  IsRegistered-put old new m m' e found named h = record {
    keyed = λ i w f.
        ground (arith, rw e at f, get-put new.id i new m.items, eq_iff new.id i, h.keyed i w);
    unique = λ i j v w ei ej same. ground (
      arith,
      rw e at ei,
      rw e at ej,
      eq_iff new.id i,
      eq_iff new.id j,
      get-put new.id i new m.items,
      get-put new.id j new m.items,
      h.unique i j v w,
      h.unique i j v old,
      h.unique i j old w,
    );
  }

  delete-raised :
      (ident : String) (m : Manager D) {e : Exception}
      → (delete D ident m).0 ≡ raise e
      → (delete D ident m).1.items ≡ m.items
  unfolding delete
  delete-raised ident m h = elim (Option-cases (Dict.get ident m.items)) [
    | inl missing ↦ ground arith
    | inr (w, found) ↦ ground arith
  ]

  -- `delete`, whether it returns or raises, keeps the names of the workspaces distinct and every
  -- workspace under its identifier.
  pub delete-IsRegistered :
      (ident : String) (m : Manager D) → IsRegistered m → IsRegistered (delete D ident m).1
  delete-IsRegistered ident m h = elim (Result-cases (delete D ident m).0) [
    | inl (w, e) ↦
        let (found, quiet, items) = delete-items D ident m (λ i. (e i, (delete D ident m).1)) in
        IsRegistered-remove ident m (delete D ident m).1 items h
    | inr (x, e) ↦ record {
      keyed = rw (delete-raised ident m e) h.keyed;
      unique = rw (delete-raised ident m e) h.unique;
    }
  ]

  -- What `write_file` leaves of the registry: all of it, or all but a line in the log of the
  -- workspace.
  write_file-items :
      (utc ident relative content : String) (m : Manager D)
      → ((write_file D utc ident relative content m).1.items ≡ m.items)
        ⊎ ((w : Workspace) × (Dict.get ident m.items ≡ some w)
            × ((write_file D utc ident relative content m).1.items
                ≡ Dict.put w.id (log utc info ("saved " <> relative) "control-plane" w) m.items))
  unfolding write_file
  write_file-items utc ident relative content m = elim (Option-cases (Dict.get ident m.items)) [
    | inl missing ↦ inl (rw missing)
    | inr (w, found) ↦ elim (Result-cases (safe_path D m.disk w relative)) [
      | inr (e, refused) ↦ inl (rw (found, refused))
      | inl (path, safe) ↦ elim (Result-cases (D.make_dirs (parent path) m.disk).0) [
        | inr (e, g) ↦ inl (rw (found, safe, g))
        | inl (_, g) ↦
            elim (Result-cases (D.write_text path content (D.make_dirs (parent path) m.disk).1).0) [
              | inr (e, k) ↦ inl (rw (found, safe, g, k))
              | inl (_, k) ↦ inr (
                w,
                found,
                ground (arith, log_frame utc info ("saved " <> relative) "control-plane" w),
              )
            ]
      ]
    ]
  ]

  -- `write_file`, whether it returns or raises, keeps the names of the workspaces distinct and every
  -- workspace under its identifier.
  pub write_file-IsRegistered :
      (utc ident relative content : String) (m : Manager D)
      → IsRegistered m
      → IsRegistered (write_file D utc ident relative content m).1
  unfolding log
  write_file-IsRegistered utc ident relative content m h =
      let m' = (write_file D utc ident relative content m).1 in
      elim (write_file-items utc ident relative content m) [
        | inl same ↦ record { keyed = rw same h.keyed; unique = rw same h.unique }
        | inr (w, found, items) ↦
            let own : Dict.get w.id m.items ≡ some w =
              ap (λ k. Dict.get k m.items) (h.keyed ident w found) ∙ found in
            IsRegistered-put w (log utc info ("saved " <> relative) "control-plane" w) m m' items
              own refl h
      ]
