-- ===== src/Process/Registered.antt =====
-- The registry of src/rosplus/workspace.py under the changes of src/rosplus/process.py.
use rosplus.Base.{
  ℕ, String, ◌≡◌, refl, ◌∙◌, true, List, [], ◌∷◌, inl, inr, Option-cases, Bool-cases, if◌then◌else◌,
  ◌==◌,
}
use rosplus.Base.Dict
use rosplus.Exec.{Result, ok, raise, Result-cases, proceed, modify, pure, ◌>>◌}
use rosplus.Models.{FilePath, Workspace, NodeStatus, stopped, NodeRecord, log}
use rosplus.Disk.{Disk}
use rosplus.Workspace.{has_running}
use rosplus.Workspace.Registry.{IsRegistered}
use rosplus.Workspace.Registry.Kept.{IsRegistered-put}
use rosplus.Process.{Supervisor, update}
use rosplus.Process.Build.{Compiled, Tally, lock, unlock, settle, build, build_body}
use rosplus.Process.Build.Laws.{body_state}
use rosplus.Process.Run.{Launch, add_node, run}
use rosplus.Process.Run.Laws.{run-Ran, run_failed, started_node}
use rosplus.Process.Table.{Key, process_at}
use rosplus.Process.Stop.{
  Reaction, ended, node_known, set_status, mark_stopped, quiet_idle, reap, stop_one, stop_all, stop,
}

-- A change of a workspace that leaves its identifier and its name.
pub record IsFrame (f : Workspace → Workspace) : Type 0 where
  ident : (w : Workspace) → (f w).id ≡ w.id
  name : (w : Workspace) → (f w).name ≡ w.name

lock-IsFrame : IsFrame lock
lock-IsFrame = record { ident = λ w. refl; name = λ w. refl }

unlock-IsFrame : IsFrame unlock
unlock-IsFrame = record { ident = λ w. refl; name = λ w. refl }

settle-IsFrame : (utc : String) (t : Tally) → IsFrame (settle utc t)
unfolding settle log
settle-IsFrame utc t = record { ident = λ w. refl; name = λ w. refl }

add_node-IsFrame : (env : Launch) (node : NodeRecord) (pid : ℕ) → IsFrame (add_node env node pid)
unfolding add_node log
add_node-IsFrame env node pid = record { ident = λ w. refl; name = λ w. refl }

set_status-IsFrame : (name : String) (status : NodeStatus) → IsFrame (set_status name status)
set_status-IsFrame name status = record {
  ident = λ w. elim (Option-cases (Dict.get name w.nodes)) [
    | inl missing ↦ rw (set_status, missing) refl
    | inr (n, found) ↦ rw (set_status, found) refl
  ];
  name = λ w. elim (Option-cases (Dict.get name w.nodes)) [
    | inl missing ↦ rw (set_status, missing) refl
    | inr (n, found) ↦ rw (set_status, found) refl
  ];
}

pub quiet_idle-IsFrame : IsFrame quiet_idle
quiet_idle-IsFrame = record {
  ident = λ w. elim (Bool-cases (has_running w)) [
    | inl busy ↦ rw (quiet_idle, busy) refl
    | inr quiet ↦ rw (quiet_idle, quiet) refl
  ];
  name = λ w. elim (Bool-cases (has_running w)) [
    | inl busy ↦ rw (quiet_idle, busy) refl
    | inr quiet ↦ rw (quiet_idle, quiet) refl
  ];
}

module _ (D : Disk) where
  -- The registry of a supervisor is well-formed.
  abbrev pub Kept : Supervisor D → Type 0
  Kept s = IsRegistered s.manager

  pub update-Kept :
      (ident : String) (f : Workspace → Workspace) (s : Supervisor D)
      → IsFrame f
      → Kept s
      → Kept (update D ident f s)
  unfolding update
  update-Kept ident f s frame h = elim (Option-cases (Dict.get ident s.manager.items)) [
    | inl missing ↦ rw (update, missing) h
    | inr (w, found) ↦
        let here : (f w).id ≡ ident = frame.ident w ∙ h.keyed ident w found in
        let put : (update D ident f s).manager.items ≡ Dict.put (f w).id (f w) s.manager.items =
          rw (update, found, here) refl in
        IsRegistered-put D w (f w) s.manager (update D ident f s).manager put (rw here found)
          (frame.name w) h
  ]

  module _ (compile : FilePath → Compiled) (utc ident : String) where
    body-Kept :
        (w : Workspace) (s : Supervisor D) → Kept s → Kept (build_body D compile utc ident w s).1
    body-Kept w s h = elim (body_state D compile utc ident s w s) [
      | inl (e, raised) ↦ rw raised h
      | inr (t, rust, sources, a, b, returned) ↦
          rw returned (update-Kept ident (settle utc t) s (settle-IsFrame utc t) h)
    ]

    pub build-Kept : (s : Supervisor D) → Kept s → Kept (build D compile utc ident s).1
    unfolding build
    build-Kept s h = elim (Option-cases (Dict.get ident s.manager.items)) [
      | inl missing ↦ rw missing h
      | inr (w, found) ↦ elim (Bool-cases w.build_lock) [
        | inl locked ↦ rw (found, locked) h
        | inr free ↦
            let s1 = update D ident lock s in
            let inside = body-Kept w s1 (update-Kept ident lock s lock-IsFrame h) in
            rw (found, free) (update-Kept ident unlock _ unlock-IsFrame inside)
      ]
    ]

  pub run-Kept :
      (env : Launch) (ident target asked : String) (s : Supervisor D)
      → Kept s
      → Kept (run D env ident target asked s).1
  run-Kept env ident target asked s h =
      let out = run D env ident target asked s in
      elim (Result-cases out.0) [
        | inr (e, raised) ↦ rw (run_failed D env ident target asked s raised) h
        | inl (r, returned) ↦
            let ran = run-Ran D env ident target asked s (λ i. (returned i, out.1)) in
            let node = started_node env target r in
            rw ran.items
              (update-Kept ident (add_node env node r.pid) s (add_node-IsFrame env node r.pid) h)
      ]

  module _ (utc : String) (reaction : ℕ → Reaction) (ident : String) where
    mark_stopped-IsFrame : (name : String) → IsFrame (mark_stopped D utc reaction name)
    unfolding log
    mark_stopped-IsFrame name = record {
      ident = λ w. (set_status-IsFrame name stopped).ident w;
      name = λ w. (set_status-IsFrame name stopped).name w;
    }

    -- The last steps of a round, from the state in which the process has ended.
    marked-Kept :
        (name : String) (s1 : Supervisor D) (known : Result (Unit {0}))
        → Kept s1
        → Kept
            (proceed
              (known, s1)
              (λ _. modify (update D ident (mark_stopped D utc reaction name)) >> pure true)).1
    marked-Kept name s1 (ok _) h = update-Kept ident _ s1 (mark_stopped-IsFrame name) h
    marked-Kept name s1 (raise e) h = h

    stop_one-Kept :
        (name : String) (s : Supervisor D) → Kept s → Kept (stop_one D utc reaction ident name s).1
    unfolding stop_one
    stop_one-Kept name s h =
        let key : Key = record { ident = ident; node = name } in
        elim (Option-cases (process_at key s.processes)) [
          | inl missing ↦ rw (missing, stop_one) h
          | inr (p, listed) ↦ elim (Option-cases p.poll) [
            | inr (c, over) ↦ rw (listed, over, stop_one) h
            | inl live ↦ elim (Result-cases (ended (reaction p.pid))) [
              | inr (e, stuck) ↦ rw (listed, live, stuck, stop_one) h
              | inl (code, out) ↦ elim (Option-cases (Dict.get ident s.manager.items)) [
                | inl gone ↦ rw (listed, live, out, gone, stop_one) h
                | inr (w, found) ↦
                    rw (listed, live, out, found, stop_one)
                      (marked-Kept name (reap D utc reaction key p code s) (node_known name w) h)
              ]
            ]
          ]
        ]

    stop_all-Kept :
        (names : List String) (s : Supervisor D)
        → Kept s
        → Kept (stop_all D utc reaction ident names s).1
    unfolding stop_all
    stop_all-Kept [] s h = h
    stop_all-Kept (name ∷ names) s h =
        let s1 = (stop_one D utc reaction ident name s).1 in
        let kept = stop_one-Kept name s h in
        elim (Result-cases (stop_one D utc reaction ident name s).0) [
          | inr (e, f) ↦ rw f kept
          | inl (b, f) ↦ elim (Result-cases (stop_all D utc reaction ident names s1).0) [
            | inr (e, g) ↦ rw (f, g) (stop_all-Kept names s1 kept)
            | inl (l, g) ↦ rw (f, g) (stop_all-Kept names s1 kept)
          ]
        ]

    pub stop-Kept :
        (node_name : String) (s : Supervisor D)
        → Kept s
        → Kept (stop D utc reaction ident node_name s).1
    unfolding stop
    stop-Kept node_name s h = elim (Option-cases (Dict.get ident s.manager.items)) [
      | inl missing ↦ rw missing h
      | inr (w, found) ↦
          let names = if node_name == "" then Dict.keys w.nodes else node_name ∷ [] in
          let inside = stop_all-Kept names s h in
          elim (Result-cases (stop_all D utc reaction ident names s).0) [
            | inr (e, g) ↦ rw (found, g) inside
            | inl (r, g) ↦ rw (found, g) (update-Kept ident quiet_idle _ quiet_idle-IsFrame inside)
          ]
    ]
