-- ===== src/Process/Stop/Laws.antt =====
-- What `stop` guarantees of the processes.
pub mod Races
use text.Mathlib.TextPositions.{eq_refl}
use rosplus.Base.{
  ℕ, String, ◌≡◌, refl, sym, ap, ◌∙◌, Bool, true, false, Option, none, some, List, [], ◌∷◌, arith,
  inl, inr, ◌⊎◌, Option-cases, ◌==◌, if◌then◌else◌,
}
use rosplus.Base.Dict
use rosplus.Exec.{Result, ok, raise, Result-cases, proceed, modify, pure, ◌>>◌}
use rosplus.Exec.Errors.{Exception}
use rosplus.Models.{Workspace, log}
use rosplus.Disk.{Disk}
use rosplus.Process.{Supervisor, update, processes-update}
use rosplus.Process.Table.{
  ExitCode, Popen, Key, is_live, process_at, set_process, process_at-set_process, same,
}
use rosplus.Process.Stop.{
  Reaction, ended, node_known, mark_stopped, reap, set_status, stop_one, stop_all, stop, quiet_idle,
}

abbrev pub IsDead : Key → {D : Disk} → Supervisor D → Type 0
IsDead k s = is_live (process_at k s.processes) ≡ false

module _ (D : Disk) (utc : String) (reaction : ℕ → Reaction) (ident : String) where
  abbrev pub AllDead : List String → Supervisor D → Type 0
  AllDead [] s = Unit
  AllDead (name ∷ names) s = IsDead (record { ident = ident; node = name }) s × AllDead names s

  -- The last steps of a round leave the table as the end of the process left it.
  processes_marked :
      (p : Popen) (code : ExitCode) (s : Supervisor D) (name : String) (known : Result (Unit {0}))
      → (let key : Key = record { ident = ident; node = name } in
          let s1 = reap D utc reaction key p code s in
          proceed
            (known, s1)
            (λ _.
              modify (update D ident (mark_stopped D utc reaction name)) >> pure true)).1.processes
        ≡ set_process
            (record { ident = ident; node = name })
            (record p { poll = some code })
            s.processes
  processes_marked p code s name (ok _) = (processes-update D ident _ _).0
  processes_marked p code s name (raise e) = refl

  -- One round of the loop leaves everything alone, as it found no live process or could not end it,
  -- or its process has ended and the table says so.
  stop_one_cases :
      (name : String) (s : Supervisor D)
      → let key : Key = record { ident = ident; node = name } in
        let out = stop_one D utc reaction ident name s in
        ((out.1 ≡ s) × ((IsDead key s) ⊎ ((e : Exception) × (out.0 ≡ raise e))))
        ⊎ ((p : Popen) × (code : ExitCode) × (out.1.processes
              ≡ set_process key (record p { poll = some code }) s.processes))
  unfolding stop_one
  stop_one_cases name s =
      elim (Option-cases (process_at (record { ident = ident; node = name }) s.processes)) [
        | inl missing ↦ inl (rw (missing, stop_one), inl (rw (missing, stop_one)))
        | inr (p, h) ↦ elim (Option-cases p.poll) [
          | inr (c, g) ↦ inl (rw (h, g, stop_one), inl (rw (h, g)))
          | inl live ↦ elim (Result-cases (ended (reaction p.pid))) [
            | inr (e, k) ↦ inl (rw (h, live, k, stop_one), inr (e, rw (h, live, k, stop_one)))
            | inl (code, k) ↦ inr (
              p,
              code,
              elim (Option-cases (Dict.get ident s.manager.items)) [
                | inl gone ↦ rw (h, live, k, gone, stop_one)
                | inr (w, found) ↦
                    rw (h, live, k, found, stop_one)
                      (processes_marked p code s name (node_known name w))
              ],
            )
          ]
        ]
      ]

  stop_one-IsDead :
      (name : String) (s : Supervisor D) {b : Bool}
      → (stop_one D utc reaction ident name s).0 ≡ ok b
      → IsDead (record { ident = ident; node = name }) (stop_one D utc reaction ident name s).1
  stop_one-IsDead name s h = elim (stop_one_cases name s) [
    | inl (same_state, inl dead) ↦ rw same_state dead
    | inl (same_state, inr (e, raised)) ↦ absurd (ground arith)
    | inr (p, code, t) ↦ rw (t, process_at-set_process, eq_refl ident, eq_refl name)
  ]

  stop_one-keeps :
      (name : String) (s : Supervisor D) (k : Key)
      → IsDead k s
      → IsDead k (stop_one D utc reaction ident name s).1
  stop_one-keeps name s k dead = elim (stop_one_cases name s) [
    | inl (same_state, _) ↦ rw same_state dead
    | inr (p, code, t) ↦ rw (t, process_at-set_process) (ground arith)
  ]

  stop_all-keeps :
      (names : List String) (s : Supervisor D) (k : Key)
      → IsDead k s
      → IsDead k (stop_all D utc reaction ident names s).1
  unfolding stop_all
  stop_all-keeps [] s k dead = dead
  stop_all-keeps (name ∷ names) s k dead =
      let s1 = (stop_one D utc reaction ident name s).1 in
      let kept = stop_one-keeps name s k dead in
      elim (Result-cases (stop_one D utc reaction ident name s).0) [
        | inr (e, h) ↦ rw h kept
        | inl (b, h) ↦ elim (Result-cases (stop_all D utc reaction ident names s1).0) [
          | inr (e, g) ↦ rw (h, g) (stop_all-keeps names s1 k kept)
          | inl (l, g) ↦ rw (h, g) (stop_all-keeps names s1 k kept)
        ]
      ]

  stop_all-AllDead :
      (names : List String) (s : Supervisor D) {l : List String}
      → (stop_all D utc reaction ident names s).0 ≡ ok l
      → AllDead names (stop_all D utc reaction ident names s).1
  unfolding stop_all
  stop_all-AllDead [] s h = tt
  stop_all-AllDead (name ∷ names) s {l} h =
      let s1 = (stop_one D utc reaction ident name s).1 in
      elim (Result-cases (stop_one D utc reaction ident name s).0) [
        | inr (e, f) ↦ absurd (ground arith)
        | inl (b, f) ↦ elim (Result-cases (stop_all D utc reaction ident names s1).0) [
          | inr (e, g) ↦ absurd (ground arith)
          | inl (r, g) ↦
              rw (f, g)
                (
                  stop_all-keeps names s1 (record { ident = ident; node = name })
                      (stop_one-IsDead name s f),
                  stop_all-AllDead names s1 g,
                )
        ]
      ]

  AllDead-processes :
      (names : List String) (s t : Supervisor D)
      → t.processes ≡ s.processes
      → AllDead names s
      → AllDead names t
  AllDead-processes [] s t e dead = tt
  AllDead-processes (name ∷ names) s t e dead = (rw e dead.0, AllDead-processes names s t e dead.1)

  stop-processes :
      (node_name : String) (s : Supervisor D) {w : Workspace}
      → Dict.get ident s.manager.items ≡ some w
      → let names = if node_name == "" then Dict.keys w.nodes else node_name ∷ [] in
        let loop = stop_all D utc reaction ident names s in
        ((stop D utc reaction ident node_name s).0 ≡ loop.0)
        × ((stop D utc reaction ident node_name s).1.processes ≡ loop.1.processes)
  unfolding stop
  stop-processes node_name s {w} found =
      let names = if node_name == "" then Dict.keys w.nodes else node_name ∷ [] in
      let s1 = (stop_all D utc reaction ident names s).1 in
      elim (Result-cases (stop_all D utc reaction ident names s).0) [
        | inr (e, g) ↦ (rw (found, g), rw (found, g))
        | inl (r, g) ↦ (rw (found, g), rw (found, g) (processes-update D ident quiet_idle s1).0)
      ]

  -- A `stop` that returns has left no process alive under the name that it was given, or, without
  -- a name, under any node of the workspace.
  pub stop-AllDead :
      (node_name : String) (s : Supervisor D) {w : Workspace} {l : List String} {s' : Supervisor D}
      → Dict.get ident s.manager.items ≡ some w
      → stop D utc reaction ident node_name s ≡ (ok l, s')
      → AllDead (if node_name == "" then Dict.keys w.nodes else node_name ∷ []) s'
  stop-AllDead node_name s {w} {l} {s'} found h =
      let names = if node_name == "" then Dict.keys w.nodes else node_name ∷ [] in
      let (result, table) = stop-processes node_name s found in
      AllDead-processes names (stop_all D utc reaction ident names s).1 s'
        (sym (ap (λ (o : Result (List String) × Supervisor D). o.1.processes) h) ∙ table)
        (stop_all-AllDead names s
          (sym result ∙ ap (λ (o : Result (List String) × Supervisor D). o.0) h))
