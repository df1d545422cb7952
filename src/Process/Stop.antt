-- ===== src/Process/Stop.antt =====
-- `ProcessManager.stop` and `_capture` of src/rosplus/process.py.
pub mod Laws
use rosplus.Base.{
  ℕ, String, ◌<>◌, Bool, true, false, not, Option, none, some, List, [], ◌∷◌, any, ◌==◌,
  if◌then◌else◌,
}
use rosplus.Base.Dict
use rosplus.Exec.{Result, ok, raise, Act, pure, lift, gets, modify, require, proceed, ◌>>=◌, ◌>>◌}
use rosplus.Exec.Errors.{Exception, other_error}
use rosplus.Models.{
  Workspace, NodeRecord, NodeStatus, running, stopped, error, info, error_level, idle, failed, log,
}
use rosplus.Disk.{Disk}
use rosplus.Workspace.{has_running}
use rosplus.Process.{Supervisor, find, update}
use rosplus.Process.Table.{
  ExitCode, is_zero, code_text, Popen, Key, is_live, process_at, set_process,
}

-- How a process answers `terminate()` and `kill()` within the waits: it ends on the first, on the
-- second, or on neither, when `wait` raises `TimeoutExpired`.
pub data Reaction : Type 0 where
  on_terminate : ExitCode → Reaction
  on_kill : ExitCode → Reaction
  never : Reaction

abbrev pub ended : Reaction → Result ExitCode
ended (on_terminate code) = ok code
ended (on_kill code) = ok code
ended never = raise (other_error "TimeoutExpired")

-- `ws.nodes[name].status = status`; a missing name is a `KeyError`
abbrev pub set_status : String → NodeStatus → Workspace → Workspace
set_status name status w = elim (Dict.get name w.nodes) [
  | none ↦ w
  | some n ↦ record w { nodes = Dict.put name (record n { status = status }) w.nodes }
]

abbrev pub node_known : String → Workspace → Result (Unit {0})
node_known name w = elim (Dict.get name w.nodes) [
  | none ↦ raise (other_error "KeyError")
  | some _ ↦ ok tt
]

abbrev pub quiet_idle : Workspace → Workspace
quiet_idle w = if has_running w then w else record w { status = idle }

module _ (D : Disk) (utc : String) (reaction : ℕ → Reaction) where
  -- The process has ended, and `poll()` gives its code from now on.
  abbrev pub reap : Key → Popen → ExitCode → Supervisor D → Supervisor D
  reap key proc code s = record s {
    processes = set_process key (record proc { poll = some code }) s.processes;
  }

  abbrev pub mark_stopped : String → Workspace → Workspace
  mark_stopped name w = log utc info "node stopped" name (set_status name stopped w)

  -- The body of the loop: whether the process was stopped.
  unfoldable pub stop_one : String → String → Act (Supervisor D) Bool
  unfolding find
  stop_one ident name s =
      let key : Key = record { ident = ident; node = name } in
      elim (process_at key s.processes) [
        | none ↦ (ok false, s)
        | some proc ↦ elim proc.poll [
          | some code ↦ (ok false, s)
          | none ↦
              (do
                code ← lift (ended (reaction proc.pid))
                modify (reap key proc code)
                ws ← find D ident
                lift (node_known name ws)
                modify (update D ident (mark_stopped name))
                pure true)
                s
        ]
      ]

  unfoldable pub stop_all : String → List String → Act (Supervisor D) (List String)
  stop_all ident [] = pure []
  stop_all ident (name ∷ names) = do
    done ← stop_one ident name
    rest ← stop_all ident names
    pure (if done then name ∷ rest else rest)

  unfoldable pub stop : String → String → Act (Supervisor D) (List String)
  unfolding find
  stop ident node_name = do
    ws ← find D ident
    names ← stop_all ident (if node_name == "" then Dict.keys ws.nodes else node_name ∷ [])
    modify (update D ident quiet_idle)
    pure names

-- One line that `_capture` reads, already stripped on the right.
unfoldable pub capture_line : String → String → String → Workspace → Workspace
capture_line utc name line w = log utc info line name w

-- The rest of `_capture`, once the output has ended and `wait` has given `code`.
unfoldable pub capture_exit : String → String → ExitCode → Workspace → Workspace
capture_exit utc name code w =
    let fine = is_zero code in
    let w1 = set_status name (if fine then stopped else error) w in
    let w2 = if has_running w1 then w1 else record w1 { status = if fine then idle else failed } in
    log utc (if fine then info else error_level) ("process exited with code " <> code_text code)
      name w2
