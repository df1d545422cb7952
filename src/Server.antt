-- ===== src/Server.antt =====
-- src/rosplus/server.py: the application and its routes.
pub mod Request
pub mod Render
pub mod Dispatch
pub mod Lifecycle
pub mod Heartbeats
pub mod Serve
use rosplus.Base.{
  ℕ, ◌+◌, String, ◌<>◌, Bool, true, false, Option, none, some, List, [], ◌∷◌, length, any,
  if◌then◌else◌, ◌&&◌, ◌==◌,
}
use rosplus.Base.Dict
use rosplus.Base.Text.{decimal, join}
use rosplus.Models.{FilePath, Workspace, NodeRecord, NodeStatus}
use rosplus.Disk.{Disk}
use rosplus.Safety.Monitor.{Monitor}
use rosplus.Workspace.{is_running}
use rosplus.Process.{Supervisor}

-- `Application`; the heartbeat thread is in `Safety.Threads`.
pub record Application (D : Disk) : Type 0 where
  pub sup : Supervisor D
  pub token : String
  pub safety : Monitor

abbrev pub count {ℓ} : {A : Type ℓ} → (A → Bool) → List A → ℕ
count p [] = 0
count p (x ∷ xs) = (if p x then 1 else 0) + count p xs

abbrev pub total {ℓ} : {A : Type ℓ} → (A → ℕ) → List A → ℕ
total f [] = 0
total f (x ∷ xs) = f x + total f xs

abbrev pub running_nodes : Workspace → ℕ
running_nodes w = count (λ (n : NodeRecord). is_running n.status) (Dict.values w.nodes)

-- `metrics`
unfoldable pub metrics : (D : Disk) → Application D → String
unfolding join decimal
metrics D app =
    let workspaces = Dict.values app.sup.manager.items in
    join "\n" (
      "# HELP rosplus_workspaces_total Managed workspaces"
      ∷ "# TYPE rosplus_workspaces_total gauge"
      ∷ ("rosplus_workspaces_total " <> decimal (length workspaces))
      ∷ "# HELP rosplus_nodes_running Supervised running nodes"
      ∷ "# TYPE rosplus_nodes_running gauge"
      ∷ ("rosplus_nodes_running " <> decimal (total running_nodes workspaces))
      ∷ "# HELP rosplus_safety_estop Safety E-Stop state"
      ∷ "# TYPE rosplus_safety_estop gauge"
      ∷ ("rosplus_safety_estop " <> (if app.safety.estop_triggered then "1" else "0"))
      ∷ ""
      ∷ [])
