-- ===== src/Process.antt =====
-- src/rosplus/process.py: the supervisor of node processes. The processes are the operating
-- system's: what they do is an argument of the calls, and their state changes by its own steps.
pub mod Table
pub mod Build
pub mod Run
pub mod Stop
pub mod Output
pub mod Registered
use rosplus.Base.{
  ℕ, String, Bool, true, false, Option, none, some, List, ◌≡◌, refl, if◌then◌else◌, ◌==◌, eq_iff,
  arith, Option-cases, inl, inr,
}
use rosplus.Base.Dict
use rosplus.Base.Text.{decimal}
use rosplus.Exec.{Result, ok, raise, Act, ◌>>=◌, lift}
use rosplus.Exec.Errors.{workspace_error, workspace_not_found}
use rosplus.Models.{Workspace, NodeRecord}
use rosplus.Disk.{Disk}
use rosplus.Workspace.{Manager}
use rosplus.Process.Table.{Processes}

-- `ProcessManager`, with the manager of the workspaces that it was made over.
pub record Supervisor (D : Disk) : Type 0 where
  pub manager : Manager D
  pub processes : Processes

module _ (D : Disk) where
  -- `self.workspaces.get(ident)`
  unfoldable pub find : String → Act (Supervisor D) Workspace
  find ident s = (
    elim (Dict.get ident s.manager.items) [
      | some w ↦ ok w
      | none ↦ raise (workspace_error workspace_not_found)
    ],
    s,
  )

  -- A change of the workspace object under `ident`.
  unfoldable pub update : String → (Workspace → Workspace) → Supervisor D → Supervisor D
  update ident f s = elim (Dict.get ident s.manager.items) [
    | none ↦ s
    | some w ↦ record s {
      manager = record s.manager { items = Dict.put ident (f w) s.manager.items };
    }
  ]

  abbrev pub on_some : (Workspace → Workspace) → Option Workspace → Option Workspace
  on_some f none = none
  on_some f (some w) = some (f w)

  pub get-update :
      (ident j : String) (f : Workspace → Workspace) (s : Supervisor D)
      → Dict.get j (update ident f s).manager.items ≡ (
          if ident == j then on_some f (Dict.get j s.manager.items) else Dict.get j s.manager.items)
  unfolding update
  get-update ident j f s = elim (Option-cases (Dict.get ident s.manager.items)) [
    | inl missing ↦ ground (arith, eq_iff ident j)
    | inr (w, found) ↦ ground (arith, eq_iff ident j, Dict.get-put ident j (f w) s.manager.items)
  ]

  -- An update of a workspace leaves the processes, the disk and the other workspaces.
  pub processes-update :
      (ident : String) (f : Workspace → Workspace) (s : Supervisor D)
      → ((update ident f s).processes ≡ s.processes)
        × ((update ident f s).manager.disk ≡ s.manager.disk)
  unfolding update
  processes-update ident f s = ground arith
