-- ===== src/Server/Render.antt =====
-- The JSON bodies that `dispatch` of src/rosplus/server.py makes.
use rosplus.Base.{
  ℕ, String, Bool, true, false, Option, none, some, List, length, drop, ◌-◌, ◌==◌, if◌then◌else◌,
}
use rosplus.Base.Dict
use rosplus.Exec.{Result, ok, raise}
use rosplus.Exec.Errors.{other_error}
use rosplus.Json.{Json, bool, num, str, arr, obj, Items, nil, cons, Fields, end, field, get, array}
use rosplus.Models.{
  Workspace, NodeRecord, node_public, workspace_status_text, LogRecord, Severity, info, error_level,
}
use rosplus.Safety.Monitor.{Monitor, Status, status}
use rosplus.Workspace.{FileInfo, FileContent, Saved, is_running}
use rosplus.Process.Build.{BuildReport}
use rosplus.Process.Run.{RunReport}
use rosplus.Server.{count, running_nodes}

abbrev pub status_body : String → ℕ → Workspace → Json
status_body ident now w = obj (
    field "id" (str ident) (
      field "status" (str (workspace_status_text w.status)) (
        field "nodes" (arr (array (node_public now) (Dict.values w.nodes))) (
          field "last_activity" (str w.last_activity)
            (field "executor_mode" (str "soft_rt") end)))))

abbrev pub file_info_body : FileInfo → Json
file_info_body f = obj (
    field "name" (str f.file_name) (
      field "path" (str f.path) (
        field "is_directory" (bool f.is_directory) (
          field "size_bytes" (num f.size_bytes)
            (field "last_modified" (str f.last_modified) end)))))

abbrev pub content_body : FileContent → Json
content_body f = obj (
    field "path" (str f.path) (
      field "content" (str f.content) (
        field "language" (str f.language) (
          field "size_bytes" (num f.size_bytes)
            (field "last_modified" (str f.last_modified) end)))))

abbrev pub saved_body : Saved → Json
saved_body f = obj (
    field "path" (str f.path)
      (field "size_bytes" (num f.size_bytes) (field "last_modified" (str f.last_modified) end)))

-- The duration of the build is left out.
abbrev pub build_body : BuildReport → Json
build_body r = obj (
    field "success" (bool r.success) (
      field "log" (str r.log) (
        field "errors" (arr (array str r.errors)) (
          field "warnings" (arr (array str r.warnings))
            (field "packages_built" (num r.packages_built) end)))))

abbrev pub run_body : RunReport → Json
run_body r = obj (
    field "success" (bool true) (
      field "node_name" (str r.node_name) (
        field "pid" (num r.pid) (field "mode" (str r.mode) (field "log_url" (str r.log_url) end)))))

abbrev pub stop_body : List String → Json
stop_body names = obj (
    field "success" (bool true)
      (field "stopped" (arr (array str names)) (field "message" (str "Node(s) stopped") end)))

abbrev severity_text : Severity → String
severity_text info = "info"
severity_text error_level = "error"

abbrev log_body : LogRecord → Json
log_body r = obj (
    field "type" (str "log") (
      field "workspace_id" (str r.workspace_id) (
        field "timestamp" (str r.timestamp) (
          field "severity" (str (severity_text r.severity))
            (field "node" (str r.node) (field "message" (str r.message) end))))))

-- `ws.logs[-200:]`
abbrev pub last_logs : List LogRecord → List LogRecord
last_logs logs = drop (length logs - 200) logs

abbrev pub logs_body : Workspace → Json
logs_body w = obj (
    field "logs" (arr (array log_body (last_logs w.logs)))
      (field "note" (str "Polling fallback; WebSocket adapter is a native-service boundary") end))

-- `fields[key] = value`
unfoldable pub put_field : String → Json → Fields → Fields
put_field key v end = field key v end
put_field key v (field k w fs) = if k == key then field k v fs else field k w (put_field key v fs)

abbrev is_node_running : Option NodeRecord → Bool
is_node_running none = false
is_node_running (some n) = is_running n.status

-- The loop over the nodes of the graph; a node has to be an object with a text under "id".
unfoldable pub annotate : Workspace → Items → Result Items
unfolding put_field get
annotate w nil = ok nil
annotate w (cons (obj fs) rest) = elim (get "id" fs) [
  | some (str id) ↦
      let healthy = is_node_running (Dict.get id w.nodes) in
      let status = if healthy then "healthy" else "stopped" in
      let color = if healthy then "green" else "gray" in
      let fs' = put_field "color" (str color) (put_field "status" (str status) fs) in
      elim (annotate w rest) [ ok items ↦ ok (cons (obj fs') items) | raise e ↦ raise e ]
  | some _ ↦ raise (other_error "TypeError")
  | none ↦ raise (other_error "KeyError")
]
annotate w (cons _ rest) = raise (other_error "TypeError")

-- `graph` with its nodes annotated
unfoldable pub graph_body : Workspace → Json → Result Json
unfolding annotate
graph_body w (obj fs) = elim (get "nodes" fs) [
  | none ↦ ok (obj fs)
  | some (arr items) ↦ elim (annotate w items) [
    | ok items' ↦ ok (obj (put_field "nodes" (arr items') fs))
    | raise e ↦ raise e
  ]
  | some _ ↦ raise (other_error "TypeError")
]
graph_body w _ = raise (other_error "AttributeError")

abbrev safety_body : Status → Json
safety_body s = obj (
    field "connected" (bool s.connected) (
      field "estop_triggered" (bool s.estop_triggered)
        (field "heartbeat_latency_us" (num s.heartbeat_latency_us) end)))

abbrev zero_pool : Json
zero_pool = obj (
    field "total_chunks" (num 0) (
      field "used_chunks" (num 0)
        (field "chunk_size_bytes" (num 0) (field "spill_events" (num 0) end))))

abbrev pub metrics_body : ℕ → Monitor → Workspace → Json
metrics_body now safety w =
    let nodes = Dict.values w.nodes in
    obj (
      field "total_nodes" (num (length nodes)) (
        field "native_nodes" (num (count (λ (n : NodeRecord). n.mode == "native") nodes)) (
          field "legacy_nodes" (num (count (λ (n : NodeRecord). n.mode == "legacy") nodes)) (
            field "running_nodes" (num (running_nodes w)) (
              field "avg_latency_us" (num 0) (
                field "p99_latency_us" (num 0) (
                  field "total_messages" (num 0) (
                    field "messages_per_second" (num 0) (
                      field "missed_deadlines" (num 0) (
                        field "shm_pool" zero_pool (
                          field "safety_monitor" (safety_body (status now safety))
                            (field "executor_mode" (str "soft_rt") end))))))))))))
