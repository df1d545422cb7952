-- ===== src/Process/Run/Laws.antt =====
-- What `run` demands and what it leaves behind.
use text.Mathlib.TextPositions.{eq_refl}
use rosplus.Base.{
  String, ◌≡◌, ◌≢◌, refl, sym, subst, true, false, none, some, arith, inl, inr, Option-cases,
  eq_iff, if◌then◌else◌,
}
use rosplus.Base.Dict
use rosplus.Exec.{Result, ok, raise, Result-cases}
use rosplus.Exec.Errors.{Exception}
use rosplus.Models.{FilePath, Workspace, NodeRecord, running, active, log}
use rosplus.Paths.{name}
use rosplus.Paths.Names.{split_name}
use rosplus.Disk.{Disk}
use rosplus.Workspace.Boundary.{Inside, safe_path-Inside}
use rosplus.Workspace.Files.{safe_path}
use rosplus.Process.{Supervisor, update, get-update, processes-update}
use rosplus.Process.Table.{Key, is_live, process_at, set_process, process_at-set_process, same}
use rosplus.Process.Run.{Launch, RunReport, run, mode_of, add_node}

-- The record of the node that a report is about.
abbrev pub started_node : Launch → String → RunReport → NodeRecord
started_node env target r = record {
  name = r.node_name;
  target = target;
  mode = r.mode;
  status = running;
  pid = some r.pid;
  started_monotonic = env.clock;
  restart_count = 0;
}

abbrev pub key_of : String → RunReport → Key
key_of ident r = record { ident = ident; node = r.node_name }

-- What a `run` that returned has checked, and what it has done.
pub record Ran (D : Disk) (env : Launch) (ident target asked : String) (s : Supervisor D)
    (r : RunReport) (s' : Supervisor D) : Type 0 where
  ws : Workspace
  path : FilePath
  found : Dict.get ident s.manager.items ≡ some ws
  safe : safe_path D s.manager.disk ws target ≡ ok path
  is_file : D.is_file s.manager.disk path ≡ true
  python : (split_name (name path)).suffix ≡ ".py"
  stem : r.node_name ≡ (split_name (name path)).stem
  mode : r.mode ≡ mode_of path asked
  not_native : r.mode ≢ "native"
  spawned : env.spawn ≡ ok r.pid
  was_free : is_live (process_at (key_of ident r) s.processes) ≡ false
  pub items :
      s'.manager ≡ (update D ident (add_node env (started_node env target r) r.pid) s).manager
  processes :
      s'.processes
      ≡ set_process
          (key_of ident r)
          (record { pid = r.pid; poll = none })
          (update D ident (add_node env (started_node env target r) r.pid) s).processes

module _ (D : Disk) (env : Launch) (ident target asked : String) (s : Supervisor D) where
  pub run-Ran :
      {r : RunReport} {s' : Supervisor D}
      → run D env ident target asked s ≡ (ok r, s')
      → Ran D env ident target asked s r s'
  unfolding run
  run-Ran {r} {s'} h = elim (Option-cases (Dict.get ident s.manager.items)) [
    | inl missing ↦ absurd (ground arith)
    | inr (ws, found) ↦ elim (Result-cases (safe_path D s.manager.disk ws target)) [
      | inr (e, refused) ↦ absurd (ground arith)
      | inl (path, safe) ↦ elim (Result-cases env.spawn) [
        | inr (e, failed) ↦ absurd (ground arith)
        | inl (pid, spawned) ↦ record {
          ws = ws;
          path = path;
          found = found;
          safe = safe;
          is_file = ground arith;
          python = ground (arith, eq_iff (split_name (name path)).suffix ".py");
          stem = ground arith;
          mode = ground arith;
          not_native = ground (arith, eq_iff (mode_of path asked) "native");
          spawned = ground arith;
          was_free = ground arith;
          items = ground arith;
          processes = ground arith;
        }
      ]
    ]
  ]

  pub run_failed :
      {e : Exception}
      → (run D env ident target asked s).0 ≡ raise e
      → (run D env ident target asked s).1 ≡ s
  unfolding run
  run_failed h = elim (Option-cases (Dict.get ident s.manager.items)) [
    | inl missing ↦ ground arith
    | inr (ws, found) ↦ elim (Result-cases (safe_path D s.manager.disk ws target)) [
      | inr (e, refused) ↦ ground arith
      | inl (path, safe) ↦ elim (Result-cases env.spawn) [
        | inr (e, failed) ↦ ground arith
        | inl (pid, spawned) ↦ ground arith
      ]
    ]
  ]

  -- What holds of a `run` that returned `r` and left `s'`.
  abbrev pub Started : RunReport → Supervisor D → Type 0
  Started r s' =
      (ws : Workspace) × (path : FilePath) × (w' : Workspace) × (Dict.get ident s.manager.items
        ≡ some ws)
      × Inside ws.path path
      × (D.is_file s.manager.disk path ≡ true)
      × ((split_name (name path)).suffix ≡ ".py")
      × (r.node_name ≡ (split_name (name path)).stem)
      × (r.mode ≢ "native")
      × (is_live (process_at (key_of ident r) s.processes) ≡ false)
      × ((k : Key)
          → process_at k s'.processes ≡ (
              if same (key_of ident r) k
              then some (record { pid = r.pid; poll = none })
              else process_at k s.processes))
      × (Dict.get ident s'.manager.items ≡ some w')
      × (Dict.get r.node_name w'.nodes ≡ some (started_node env target r))
      × (w'.status ≡ active)

  pub run_lem :
      {r : RunReport} {s' : Supervisor D}
      → run D env ident target asked s ≡ (ok r, s')
      → Started r s'
  unfolding add_node log
  run_lem {r} h =
      let ran = run-Ran h in
      let node = started_node env target r in
      (
        ran.ws,
        ran.path,
        add_node env node r.pid ran.ws,
        ran.found,
        safe_path-Inside D s.manager.disk ran.ws target ran.safe,
        ran.is_file,
        ran.python,
        ran.stem,
        ran.not_native,
        ran.was_free,
        λ k. rw (
          ran.processes,
          process_at-set_process,
          (processes-update D ident (add_node env node r.pid) s).0,
        ),
        rw (ran.items, get-update, eq_refl ident, ran.found),
        rw (Dict.get-put, eq_refl r.node_name),
        refl,
      )

  -- What a `run` came to.
  abbrev pub Outcome : Result RunReport × Supervisor D → Type 0
  Outcome (ok r, s') = Started r s'
  Outcome (raise e, s') = s' ≡ s

  -- A `run` that returns was given a Python file inside the workspace, and not the native mode, and
  -- no process of the workspace and the node's name was alive. Afterwards the process that was
  -- spawned stands there, alive; the other processes are as they were; and the workspace is
  -- running and lists the node as running under that process. A `run` that raises, for whatever
  -- reason, has changed nothing.
  pub run-Outcome : Outcome (run D env ident target asked s)
  run-Outcome = elim (Result-cases (run D env ident target asked s).0) [
    | inl (r, returned) ↦
        let s' = (run D env ident target asked s).1 in
        let is : run D env ident target asked s ≡ (ok r, s') = λ i. (returned i, s') in
        subst Outcome (sym is) (run_lem is)
    | inr (e, raised) ↦
        let s' = (run D env ident target asked s).1 in
        let is : run D env ident target asked s ≡ (raise e, s') = λ i. (raised i, s') in
        subst Outcome (sym is) (run_failed raised)
  ]
