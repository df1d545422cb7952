-- ===== src/Server/Dispatch.antt =====
-- `Handler.dispatch` of src/rosplus/server.py: the routes in the order of the source.
pub mod Laws
pub mod Registered
use rosplus.Base.{
  ℕ, String, ◌<>◌, Bool, true, false, not, ◌&&◌, ◌||◌, Option, none, some, List, [], ◌∷◌, ◌==◌,
  length, leb, if◌then◌else◌,
}
use rosplus.Base.Dict
use rosplus.Base.Text.{join}
use rosplus.Exec.{Result, ok, raise, Act, pure, throw, lift, gets, require, ◌>>=◌, ◌>>◌, proceed}
use rosplus.Exec.Errors.{
  Exception, permission_error, workspace_error, workspace_not_found, other_error, bad_name,
  unknown_template,
}
use rosplus.Json.{Json, bool, num, str, arr, obj, Fields, end, field, array, nil, get}
use rosplus.Models.{FilePath, Workspace, workspace_public}
use rosplus.Paths.{child, path_beq}
use rosplus.Disk.{Disk, read_text}
use rosplus.Workspace.{Manager, Env, create, delete}
use rosplus.Workspace.Templates.{valid_name}
use rosplus.Workspace.Files.{list_files, read_file, write_file}
use rosplus.Process.{Supervisor, update}
use rosplus.Process.Build.{Compiled, build}
use rosplus.Process.Run.{Launch, run}
use rosplus.Process.Stop.{Reaction, stop, quiet_idle}
use rosplus.Server.{Application, metrics}
use rosplus.Server.Request.{
  Request, Response, json, text, dropped, path_parts, body_fields, text_field, answer_error,
  error_body, NodeName, named, no_process, unhashable, node_name_of, mode_field, is_hashable,
}
use rosplus.Server.Render.{
  status_body, file_info_body, content_body, saved_body, build_body, run_body, stop_body, logs_body,
  graph_body, metrics_body,
}

-- What one request reads from outside.
pub record World : Type 0 where
  pub timestamp : String
  pub env : Env
  pub launch : Launch
  pub compile : FilePath → Compiled
  pub reaction : ℕ → Reaction
  -- `urllib.parse.unquote`
  pub unquote : String → String
  -- `str.lower`
  pub lower : String → String
  -- `str` of a JSON value that is no text
  pub str_of : Json → String
  -- `json.loads`
  pub loads : String → Result Json
  -- web/index.html, if it is there
  pub web : Option String

-- The paths that need no token.
abbrev pub is_open : Request → Bool
is_open r = r.path == "/health" || r.path == "/metrics" || r.path == "/"

module _ (D : Disk) where
  abbrev pub on_sup : {A : Type 0} → Act (Supervisor D) A → Act (Application D) A
  on_sup m app = let (r, s) = m app.sup in (r, record app { sup = s })

  abbrev pub on_manager : {A : Type 0} → Act (Manager D) A → Act (Application D) A
  on_manager f app =
      let (r, m) = f app.sup.manager in (r, record app { sup = record app.sup { manager = m } })

  -- `app.workspaces.get(ident)`
  abbrev pub workspace : String → Application D → Result Workspace
  workspace ident app = elim (Dict.get ident app.sup.manager.items) [
    | some w ↦ ok w
    | none ↦ raise (workspace_error workspace_not_found)
  ]

  abbrev deleted_body : String → Json
  deleted_body ident = obj (field "message" (str "Workspace deleted") (field "id" (str ident) end))

  abbrev not_found : Response
  not_found = json 404 (error_body "Not found" 404)

  -- `json.loads(gp.read_text())`, or the empty graph
  abbrev graph_of : World → Workspace → Application D → Result Json
  graph_of world w app =
      let path = child w.path "rosplus.graph.json" in
      let d = app.sup.manager.disk in
      if D.exists d path
      then elim (read_text D d path) [ ok t ↦ world.loads t | raise e ↦ raise e ]
      else ok (obj (field "nodes" (arr nil) (field "edges" (arr nil) end)))

  module _ (world : World) (r : Request) (ident : String) where
    unfoldable pub delete_route : Act (Application D) Response
    delete_route = do
      on_sup (stop D world.env.utc world.reaction ident "")
      on_manager (delete D ident)
      pure (json 200 (deleted_body ident))

    unfoldable pub write_route : String → Act (Application D) Response
    write_route relative = do
      fields ← lift (body_fields r)
      content ← lift (text_field "content" "" fields)
      saved ← on_manager (write_file D world.env.utc ident relative content)
      pure (json 200 (saved_body saved))

    unfoldable pub read_route : String → Act (Application D) Response
    read_route relative = do
      found ← on_manager (read_file D world.env.utc ident relative)
      pure (json 200 (content_body found))

    unfoldable pub files_route : Act (Application D) Response
    files_route = do
      found ← on_manager (list_files D world.lower world.env.utc ident r.query_path)
      pure (json 200 (obj (field "files" (arr (array file_info_body found)) end)))

    unfoldable pub build_route : Act (Application D) Response
    build_route = do
      fields ← lift (body_fields r)
      report ← on_sup (build D world.compile world.env.utc ident)
      pure (json 200 (build_body report))

    unfoldable pub run_route : Act (Application D) Response
    unfolding mode_field
    run_route = do
      fields ← lift (body_fields r)
      target ← lift (text_field "target" "" fields)
      report ← on_sup (run D world.launch ident target (mode_field world.str_of fields))
      pure (json 200 (run_body report))

    -- `stop` with any value for a name.
    unfoldable pub stop_named : NodeName → Act (Supervisor D) (List String)
    stop_named (named name) s = stop D world.env.utc world.reaction ident name s
    stop_named no_process s = (ok [], update D ident quiet_idle s)
    stop_named unhashable s = (raise (other_error "TypeError"), s)

    unfoldable pub stop_route : Act (Application D) Response
    unfolding stop_named node_name_of
    stop_route = do
      fields ← lift (body_fields r)
      names ← on_sup (stop_named (node_name_of fields))
      pure (json 200 (stop_body names))

    unfoldable pub graph_route : Workspace → Act (Application D) Response
    graph_route w = do
      graph ← gets (graph_of world w)
      loaded ← lift graph
      annotated ← lift (graph_body w loaded)
      pure (json 200 annotated)

    abbrev tail_is : List String → String → Bool
    tail_is tail word = path_beq tail (word ∷ [])

    -- The routes below a workspace `w` that was found.
    unfoldable pub workspace_route : List String → Workspace → Act (Application D) Response
    workspace_route [] w app =
        if r.method == "GET"
        then (ok (json 200 (workspace_public w)), app)
        else if r.method == "DELETE"
        then delete_route app
        else (ok not_found, app)
    workspace_route (head ∷ rest) w app =
        let tail = head ∷ rest in
        let now = world.launch.clock in
        if tail_is tail "status"
        then (ok (json 200 (status_body ident now w)), app)
        else if tail_is tail "files"
        then files_route app
        else if head == "file" && r.method == "GET"
        then read_route (join "/" rest) app
        else if head == "file" && r.method == "PUT"
        then write_route (join "/" rest) app
        else if tail_is tail "build" && r.method == "POST"
        then build_route app
        else if tail_is tail "run" && r.method == "POST"
        then run_route app
        else if tail_is tail "stop" && r.method == "POST"
        then stop_route app
        else if tail_is tail "logs"
        then (ok (json 200 (logs_body w)), app)
        else if tail_is tail "graph"
        then graph_route w app
        else if tail_is tail "metrics"
        then (ok (json 200 (metrics_body now app.safety w)), app)
        else (ok not_found, app)

  -- `create` with a template that is no text.
  unfoldable pub refuse : World → String → Json → Act (Manager D) Workspace
  refuse world name template = do
    require (valid_name name) (workspace_error bad_name)
    throw (
        if is_hashable template
        then workspace_error (unknown_template (world.str_of template))
        else other_error "TypeError")

  unfoldable pub create_from : World → String → Option Json → Act (Manager D) Workspace
  create_from world name none = create D world.env name "empty"
  create_from world name (some (str template)) = create D world.env name template
  create_from world name (some template) = refuse world name template

  unfoldable pub create_route : World → Request → Act (Application D) Response
  unfolding get create_from
  create_route world r = do
    fields ← lift (body_fields r)
    name ← lift (text_field "name" "" fields)
    ws ← on_manager (create_from world name (get "template" fields))
    pure (json 201 (workspace_public ws))

  abbrev is_api : String → String → String → Bool
  is_api a v k = a == "api" && v == "v1" && k == "workspace"

  -- The routes that need the token.
  unfoldable pub api : World → Request → List String → Act (Application D) Response
  api world r (a ∷ v ∷ k ∷ ident ∷ tail) app =
      if is_api a v k && ident == "create" && path_beq tail [] && r.method == "POST"
      then create_route world r app
      else if is_api a v k
      then (elim (workspace ident app) [
        | ok w ↦ workspace_route world r ident tail w app
        | raise e ↦ (raise e, app)
      ])
      else (ok not_found, app)
  api world r _ app = (ok not_found, app)

  abbrev health_body : World → Application D → Json
  health_body world app = obj (
      field "status" (str "ok") (
        field "timestamp" (str world.timestamp) (
          field "version" (str "0.1.0") (
            field "executor_connected" (bool false)
              (field "safety_monitor_connected" (bool app.safety.running) end)))))

  abbrev web_page : Option String → Response
  web_page none = json 404 (obj (field "error" (str "web client not found") end))
  web_page (some page) = text 200 page

  -- `authorize`
  unfoldable pub authorized : Application D → Request → Bool
  authorized app r = elim r.authorization [
    | none ↦ false
    | some given ↦ given == ("Bearer " <> app.token)
  ]

  -- The `except` clauses, around the rest.
  abbrev answered : Result Response × Application D → Response × Application D
  answered (ok a, app) = (a, app)
  answered (raise e, app) = (answer_error e, app)

  unfoldable pub dispatch : World → Request → Application D → Response × Application D
  unfolding authorized
  dispatch world r app =
      if r.path == "/health"
      then (json 200 (health_body world app), app)
      else if r.path == "/metrics"
      then (text 200 (metrics D app), app)
      else if r.path == "/"
      then (web_page world.web, app)
      else if authorized app r
      then answered (api world r (path_parts world.unquote r.path) app)
      else (answer_error (permission_error "authentication required"), app)
