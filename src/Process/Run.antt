-- ===== src/Process/Run.antt =====
-- `ProcessManager.run` of src/rosplus/process.py. `release`, `background` and `priority` change
-- nothing in the source, and the filter of the environment is the operating system's.
pub mod Laws
use rosplus.Base.{
  ℕ, String, ◌<>◌, Bool, true, false, not, Option, none, some, List, [], ◌∷◌, ◌==◌, if◌then◌else◌,
}
use rosplus.Base.Dict
use rosplus.Base.Text.{decimal}
use rosplus.Exec.{Result, ok, raise, Act, pure, lift, gets, modify, require, proceed, ◌>>=◌, ◌>>◌}
use rosplus.Exec.Errors.{
  workspace_error, target_not_found, native_mode, not_python, already_running,
}
use rosplus.Models.{FilePath, Workspace, NodeRecord, running, info, active, log}
use rosplus.Paths.{name}
use rosplus.Paths.Names.{split_name}
use rosplus.Disk.{Disk}
use rosplus.Workspace.Files.{safe_path}
use rosplus.Process.{Supervisor, find, update}
use rosplus.Process.Table.{Popen, Key, is_live, process_at, set_process}

-- What a call of `run` reads from outside: the clocks, and the process that `Popen` starts.
pub record Launch : Type 0 where
  pub utc : String
  pub clock : ℕ
  pub spawn : Result ℕ

pub record RunReport : Type 0 where
  pub node_name : String
  pub pid : ℕ
  pub mode : String
  pub log_url : String

-- The mode that a node runs in.
unfoldable pub mode_of : FilePath → String → String
unfolding split_name name
mode_of path mode =
    let detected = if (split_name (name path)).suffix == ".rs" then "native" else "legacy" in
    if mode == "auto" then detected else mode

-- The record of the node, the status and the line of the log.
unfoldable pub add_node : Launch → NodeRecord → ℕ → Workspace → Workspace
add_node env node pid w =
    log env.utc info
      ("started " <> (node.name <> (" pid=" <> (decimal pid <> (" mode=" <> node.mode))))) node.name
      (record w { nodes = Dict.put node.name node w.nodes; status = active })

module _ (D : Disk) where
  unfoldable pub run : Launch → String → String → String → Act (Supervisor D) RunReport
  unfolding find
  run env ident target asked = do
    ws ← find D ident
    d ← gets (λ s. s.manager.disk)
    path ← lift (safe_path D d ws target)
    require (D.is_file d path) (workspace_error target_not_found)
    let mode = mode_of path asked
    require (not (mode == "native")) (workspace_error native_mode)
    let split = split_name (name path)
    require (split.suffix == ".py") (workspace_error not_python)
    let key : Key = record { ident = ident; node = split.stem }
    existing ← gets (λ s. process_at key s.processes)
    require (not (is_live existing)) (workspace_error already_running)
    pid ← lift env.spawn
    let node : NodeRecord = record {
      name = split.stem;
      target = target;
      mode = mode;
      status = running;
      pid = some pid;
      started_monotonic = env.clock;
      restart_count = 0;
    }
    modify (update D ident (add_node env node pid))
    modify (λ s. record s {
      processes = set_process key (record { pid = pid; poll = none }) s.processes;
    })
    pure (record {
      node_name = split.stem;
      pid = pid;
      mode = mode;
      log_url = "/api/v1/workspace/" <> (ident <> "/logs");
    })
