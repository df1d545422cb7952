-- ===== src/Models.antt =====
-- src/rosplus/models.py: the records of nodes and workspaces, and the bounded log.
pub mod Bounded
use rosplus.Base.{
  ℕ, ◌+◌, ◌-◌, ◌/◌, ◌%◌, Bool, false, Option, none, some, String, List, [], ◌∷◌, ◌++◌, length, drop,
  ltb, nat_beq, if◌then◌else◌, ◌<>◌,
}
use rosplus.Base.Dict.{Dict}
use rosplus.Json.{Json, Fields, null, num, str, obj, end, field}

-- The texts that `status` of a node takes.
pub data NodeStatus : Type 0 where
  starting running stopped error : NodeStatus

abbrev pub node_status_text : NodeStatus → String
node_status_text starting = "starting"
node_status_text running = "running"
node_status_text stopped = "stopped"
node_status_text error = "error"

-- Times are whole microseconds of the monotonic clock.
pub record NodeRecord : Type 0 where
  pub name : String
  pub target : String
  pub mode : String
  pub status : NodeStatus
  pub pid : Option ℕ
  pub started_monotonic : ℕ
  pub restart_count : ℕ

-- `round(t, 3)` in milliseconds, ties to even
unfoldable pub round_ms : ℕ → ℕ
round_ms t =
    let q = t / 1000 in
    let r = t % 1000 in if ltb r 500 then q else if ltb 500 r then q + 1 else q + q % 2

-- `max(0.0, now - self.started_monotonic) if self.started_monotonic else 0.0`
unfoldable pub uptime : ℕ → NodeRecord → ℕ
uptime now n = if nat_beq n.started_monotonic 0 then 0 else now - n.started_monotonic

abbrev pub pid_json : Option ℕ → Json
pid_json none = null
pid_json (some p) = num p

-- `NodeRecord.public`; the uptime stands in milliseconds
unfoldable pub node_public : ℕ → NodeRecord → Json
unfolding uptime round_ms
node_public now n = obj (
    field "name" (str n.name) (
      field "status" (str (node_status_text n.status)) (
        field "mode" (str n.mode) (
          field "pid" (pid_json n.pid) (
            field "uptime_seconds" (num (round_ms (uptime now n))) (
              field "cpu_percent" (num 0)
                (field "memory_mb" (num 0) (field "restart_count" (num n.restart_count) end))))))))

-- The texts that `severity` takes; all are in lower case already.
pub data Severity : Type 0 where
  info error_level : Severity

pub record LogRecord : Type 0 where
  pub workspace_id : String
  pub timestamp : String
  pub severity : Severity
  pub node : String
  pub message : String

-- The texts that `status` of a workspace takes.
pub data WorkspaceStatus : Type 0 where
  idle building active failed : WorkspaceStatus

abbrev pub workspace_status_text : WorkspaceStatus → String
workspace_status_text idle = "idle"
workspace_status_text building = "building"
workspace_status_text active = "running"
workspace_status_text failed = "error"

-- An absolute path by its components from the root.
abbrev pub FilePath : Type 0
FilePath = List String

pub record Workspace : Type 0 where
  pub id : String
  pub name : String
  pub path : FilePath
  pub template : String
  pub status : WorkspaceStatus
  pub created : String
  pub last_activity : String
  pub nodes : Dict NodeRecord
  pub logs : List LogRecord
  pub build_lock : Bool

-- `str(path)`
unfoldable pub path_text : FilePath → String
path_text [] = "/"
path_text (p ∷ []) = "/" <> p
path_text (p ∷ q ∷ rest) = "/" <> (p <> path_text (q ∷ rest))

-- `Workspace.public`
unfoldable pub workspace_public : Workspace → Json
workspace_public w = obj (
    field "id" (str w.id) (
      field "name" (str w.name) (
        field "path" (str (path_text w.path)) (
          field "status" (str (workspace_status_text w.status)) (
            field "created" (str w.created) (
              field "last_activity" (str w.last_activity)
                (field "node_count" (num (length w.nodes)) end)))))))

-- `if len(self.logs) > 1000: del self.logs[:250]`
abbrev pub trim : List LogRecord → List LogRecord
trim logs = if ltb 1000 (length logs) then drop 250 logs else logs

-- `Workspace.log` at the time `now`
unfoldable pub log : String → Severity → String → String → Workspace → Workspace
log now severity message node w = record w {
  last_activity = now;
  logs = trim (
      w.logs
      ++ record {
        workspace_id = w.id;
        timestamp = now;
        severity = severity;
        node = node;
        message = message;
      }
        ∷ []);
}
