-- ===== src/Server/Dispatch/Registered.antt =====
-- The registry of src/rosplus/workspace.py under the requests of src/rosplus/server.py.
use rosplus.Base.{
  String, Bool, true, false, ◌&&◌, Option, none, some, List, [], ◌∷◌, arith, inl, inr, Option-cases,
  ◌==◌, if◌then◌else◌,
}
use rosplus.Base.Dict
use rosplus.Base.Text.{join}
use rosplus.Exec.{Result-cases}
use rosplus.Models.{Workspace}
use rosplus.Paths.{path_beq}
use rosplus.Disk.{Disk}
use rosplus.Workspace.{Manager}
use rosplus.Workspace.Registry.{IsRegistered, create-IsRegistered}
use rosplus.Workspace.Registry.Kept.{delete-IsRegistered, write_file-IsRegistered}
use rosplus.Process.Stop.{stop, quiet_idle}
use rosplus.Process.Registered.{build-Kept, run-Kept, stop-Kept, update-Kept, quiet_idle-IsFrame}
use rosplus.Server.{Application}
use rosplus.Json.{Json, null, bool, num, str, arr, obj, get}
use rosplus.Server.Request.{
  Request, path_parts, body_fields, text_field, NodeName, named, no_process, unhashable,
  node_name_of, mode_field,
}
use rosplus.Server.Dispatch.{
  World, dispatch, api, workspace_route, delete_route, write_route, read_route, files_route,
  build_route, run_route, stop_route, graph_route, create_route, stop_named, create_from, refuse,
}
use rosplus.Server.Dispatch.Laws.{state-read_route, state-files_route, state-graph_route}

module _ (D : Disk) where
  abbrev Kept : Application D → Type 0
  Kept app = IsRegistered app.sup.manager

  -- A branch keeps the registry if each side does.
  if-Kept :
      {A : Type 0} (b : Bool) (x y : A × Application D)
      → Kept x.1
      → Kept y.1
      → Kept (if b then x else y).1
  if-Kept true x y h k = h
  if-Kept false x y h k = k

  abbrev tail_is : List String → String → Bool
  tail_is tail word = path_beq tail (word ∷ [])

  module _ (world : World) (r : Request) (ident : String) (app : Application D) (h : Kept app) where
    delete_route-Kept : Kept (delete_route D world r ident app).1
    unfolding delete_route
    delete_route-Kept =
        let s1 = (stop D world.env.utc world.reaction ident "" app.sup).1 in
        let stopped = stop-Kept D world.env.utc world.reaction ident "" app.sup h in
        ground (arith, stopped, delete-IsRegistered D ident s1.manager stopped)

    build_route-Kept : Kept (build_route D world r ident app).1
    unfolding build_route
    build_route-Kept = ground (arith, h, build-Kept D world.compile world.env.utc ident app.sup h)

    write_route-Kept : (relative : String) → Kept (write_route D world r ident relative app).1
    unfolding write_route
    write_route-Kept relative = elim (Result-cases (body_fields r)) [
      | inr (e, bad) ↦ rw (write_route, bad) h
      | inl (fields, good) ↦ elim (Result-cases (text_field "content" "" fields)) [
        | inr (e, bad) ↦ rw (write_route, good, bad) h
        | inl (content, read) ↦
            let m = app.sup.manager in
            let kept = write_file-IsRegistered D world.env.utc ident relative content m h in
            ground (arith, kept)
      ]
    ]

    run_route-Kept : Kept (run_route D world r ident app).1
    unfolding run_route
    run_route-Kept = elim (Result-cases (body_fields r)) [
      | inr (e, bad) ↦ rw (run_route, bad) h
      | inl (fields, good) ↦ elim (Result-cases (text_field "target" "" fields)) [
        | inr (e, bad) ↦ rw (run_route, good, bad) h
        | inl (target, named_) ↦
            let mode = mode_field world.str_of fields in
            let kept = run-Kept D world.launch ident target mode app.sup h in ground (arith, kept)
      ]
    ]

    stop_named-Kept : (n : NodeName) → IsRegistered (stop_named D world r ident n app.sup).1.manager
    unfolding stop_named
    stop_named-Kept (named name) = stop-Kept D world.env.utc world.reaction ident name app.sup h
    stop_named-Kept no_process = update-Kept D ident quiet_idle app.sup quiet_idle-IsFrame h
    stop_named-Kept unhashable = h

    stop_route-Kept : Kept (stop_route D world r ident app).1
    unfolding stop_route
    stop_route-Kept = elim (Result-cases (body_fields r)) [
      | inr (e, bad) ↦ rw (stop_route, bad) h
      | inl (fields, good) ↦
          let kept = stop_named-Kept (node_name_of fields) in ground (arith, kept)
    ]

    read_route-Kept : (relative : String) → Kept (read_route D world r ident relative app).1
    read_route-Kept relative = rw (state-read_route D world r ident app relative) h

    files_route-Kept : Kept (files_route D world r ident app).1
    files_route-Kept = rw (state-files_route D world r ident app) h

    graph_route-Kept : (w : Workspace) → Kept (graph_route D world r ident w app).1
    graph_route-Kept w = rw (state-graph_route D world r ident app w) h

    workspace_route-Kept :
        (tail : List String) (w : Workspace) → Kept (workspace_route D world r ident tail w app).1
    unfolding workspace_route
    workspace_route-Kept [] w = ground (arith, h, delete_route-Kept)
    workspace_route-Kept (head ∷ rest) w =
        let tail = head ∷ rest in
        let posted = r.method == "POST" in
        if-Kept (tail_is tail "status") _ _ h (
          if-Kept (tail_is tail "files") _ _ files_route-Kept (
            if-Kept (head == "file" && r.method == "GET") _ _ (read_route-Kept (join "/" rest)) (
              if-Kept (head == "file" && r.method == "PUT") _ _ (write_route-Kept (join "/" rest)) (
                if-Kept (tail_is tail "build" && posted) _ _ build_route-Kept (
                  if-Kept (tail_is tail "run" && posted) _ _ run_route-Kept (
                    if-Kept (tail_is tail "stop" && posted) _ _ stop_route-Kept (
                      if-Kept (tail_is tail "logs") _ _ h (
                        if-Kept (tail_is tail "graph") _ _ (graph_route-Kept w)
                          (if-Kept (tail_is tail "metrics") _ _ h h)))))))))

  create_from-Kept :
      (world : World) (name : String) (template : Option Json) (m : Manager D)
      → IsRegistered m
      → IsRegistered (create_from D world name template m).1
  unfolding create_from refuse
  create_from-Kept world name none m h = create-IsRegistered D world.env name "empty" m h
  create_from-Kept world name (some (str t)) m h = create-IsRegistered D world.env name t m h
  create_from-Kept world name (some null) m h = ground (arith, h)
  create_from-Kept world name (some (bool b)) m h = ground (arith, h)
  create_from-Kept world name (some (num n)) m h = ground (arith, h)
  create_from-Kept world name (some (arr js)) m h = ground (arith, h)
  create_from-Kept world name (some (obj fs)) m h = ground (arith, h)

  create_route-Kept :
      (world : World) (r : Request) (app : Application D)
      → Kept app
      → Kept (create_route D world r app).1
  unfolding create_route
  create_route-Kept world r app h = elim (Result-cases (body_fields r)) [
    | inr (e, bad) ↦ rw (create_route, bad) h
    | inl (fields, good) ↦ elim (Result-cases (text_field "name" "" fields)) [
      | inr (e, bad) ↦ rw (create_route, good, bad) h
      | inl (name, read) ↦
          let template = get "template" fields in
          let kept = create_from-Kept world name template app.sup.manager h in ground (arith, kept)
    ]
  ]

  api-Kept :
      (world : World) (r : Request) (parts : List String) (app : Application D)
      → Kept app
      → Kept (api D world r parts app).1
  unfolding api
  api-Kept world r (a ∷ v ∷ k ∷ ident ∷ tail) app h =
      elim (Option-cases (Dict.get ident app.sup.manager.items)) [
        | inl missing ↦ ground (arith, h, create_route-Kept world r app h)
        | inr (w, found) ↦ ground (
          arith,
          h,
          create_route-Kept world r app h,
          workspace_route-Kept world r ident app h tail w,
        )
      ]
  api-Kept world r _ app h = h

  -- Any request, allowed or not, answered well or with an error, leaves a registry whose workspaces
  -- stand under their identifiers and have distinct names, if it was one before.
  pub dispatch-IsRegistered :
      (world : World) (r : Request) (app : Application D)
      → IsRegistered app.sup.manager
      → IsRegistered (dispatch D world r app).1.sup.manager
  unfolding dispatch
  dispatch-IsRegistered world r app h =
      let parts = path_parts world.unquote r.path in ground (arith, h, api-Kept world r parts app h)
