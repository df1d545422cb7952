-- ===== src/Process/Build/Laws.antt =====
-- What a build leaves behind, on every way out.
use text.Mathlib.TextPositions.{eq_refl}
use rosplus.Base.{
  ◌+◌, String, ◌≡◌, refl, true, false, List, [], ◌∷◌, Option, some, arith, length, length-append,
  inl, inr, if◌then◌else◌, ◌↔◌, ◌⊎◌,
}
use rosplus.Base.Dict
use rosplus.Exec.{ok, raise, Result-cases}
use rosplus.Exec.Errors.{Exception, workspace_error, build_in_progress}
use rosplus.Models.{FilePath, Workspace, idle, building, failed, log}
use rosplus.Disk.{Disk}
use rosplus.Process.{Supervisor, update, get-update, processes-update}
use rosplus.Process.Build.{
  Compiled, compiled, py_compile_error, raised, Tally, BuildReport, compile_all, report, settle,
  is_nil, tally, lock, unlock, build, build_body,
}

is_nil_iff : (xs : List String) → (is_nil xs ≡ true) ↔ (xs ≡ [])
is_nil_iff [] = (λ _. refl, λ _. refl)
is_nil_iff (x ∷ xs) = (λ h. cc, λ h. cc)

tally-count :
    (c : Compiled) (t : Tally) {t' : Tally}
    → tally c t ≡ ok t'
    → t'.built + length t'.errors ≡ t.built + length t.errors + 1
tally-count compiled t h = ground arith
tally-count (py_compile_error text) t h = ground (arith, length-append t.errors (text ∷ []))
tally-count (raised e) t h = ground arith

module _ (compile : FilePath → Compiled) where
  -- Every file is either built or has one error.
  compile_all-count :
      (ps : List FilePath) (t : Tally) {t' : Tally}
      → compile_all compile ps t ≡ ok t'
      → t'.built + length t'.errors ≡ t.built + length t.errors + length ps
  unfolding compile_all
  compile_all-count [] t h = ground arith
  compile_all-count (p ∷ ps) t {t'} h = elim (Result-cases (tally (compile p) t)) [
    | inl (t1, e) ↦
        omega (arith, compile_all-count ps t1 {t' = t'} (rw e at h), tally-count (compile p) t e)
    | inr (x, e) ↦ absurd (ground arith)
  ]

module _ (D : Disk) (compile : FilePath → Compiled) (utc ident : String) (s : Supervisor D) where
  -- While a build runs, another is refused and changes nothing.
  pub build_refused :
      {w : Workspace}
      → Dict.get ident s.manager.items ≡ some w
      → w.build_lock ≡ true
      → build D compile utc ident s ≡ (raise (workspace_error build_in_progress), s)
  unfolding build
  build_refused found locked = rw (found, locked)

  abbrev after : Option Workspace
  after = Dict.get ident (build D compile utc ident s).1.manager.items

  -- The state behind the body of `try`.
  pub body_state :
      (ws : Workspace) (s1 : Supervisor D)
      → ((e : Exception) × (build_body D compile utc ident ws s1 ≡ (raise e, s1)))
        ⊎ ((t : Tally) × (rust : List FilePath) × (sources : List FilePath) × (D.glob
                s1.manager.disk ws.path ".py"
              ≡ ok sources)
            × (compile_all compile sources (record { built = 0; errors = [] }) ≡ ok t)
            × (build_body D compile utc ident ws s1
                ≡ (ok (report t rust), update D ident (settle utc t) s1)))
  unfolding build_body
  body_state ws s1 = elim (Result-cases (D.glob s1.manager.disk ws.path ".py")) [
    | inr (e, h) ↦ inl (e, rw h)
    | inl (sources, h) ↦
        elim (Result-cases (compile_all compile sources (record { built = 0; errors = [] }))) [
          | inr (e, k) ↦ inl (e, rw (h, k))
          | inl (t, k) ↦ elim (Result-cases (D.glob s1.manager.disk ws.path ".rs")) [
            | inr (e, l) ↦ inl (e, rw (h, k, l))
            | inl (rust, l) ↦ inr (t, rust, sources, h, k, rw (h, k, l))
          ]
        ]
  ]

  at_update :
      (f : Workspace → Workspace) (t : Supervisor D) {w : Workspace}
      → Dict.get ident t.manager.items ≡ some w
      → Dict.get ident (update D ident f t).manager.items ≡ some (f w)
  at_update f t found = rw (get-update, eq_refl ident, found)

  -- What the two ways out of the body make of the whole call.
  build_raises :
      {w : Workspace} {e : Exception}
      → Dict.get ident s.manager.items ≡ some w
      → w.build_lock ≡ false
      → build_body D compile utc ident w (update D ident lock s) ≡ (raise e, update D ident lock s)
      → build D compile utc ident s ≡ (raise e, update D ident unlock (update D ident lock s))
  unfolding build
  build_raises found free h = rw (found, free, h)

  build_returns :
      {w : Workspace} {r : BuildReport} {s2 : Supervisor D}
      → Dict.get ident s.manager.items ≡ some w
      → w.build_lock ≡ false
      → build_body D compile utc ident w (update D ident lock s) ≡ (ok r, s2)
      → build D compile utc ident s ≡ (ok r, update D ident unlock s2)
  unfolding build
  build_returns found free h = rw (found, free, h)

  -- The two outcomes of a build of the unlocked workspace `w`.
  abbrev pub Outcome : Workspace → Type 0
  Outcome w =
      ((e : Exception) × ((build D compile utc ident s).0 ≡ raise e)
        × (after ≡ some (record w { build_lock = false; status = building })))
      ⊎ ((r : BuildReport) × (w' : Workspace) × (sources : List FilePath) × ((build D compile utc
              ident s).0
            ≡ ok r)
          × (D.glob s.manager.disk w.path ".py" ≡ ok sources)
          × (r.packages_built + length r.errors ≡ length sources)
          × ((r.success ≡ true) ↔ (r.errors ≡ []))
          × (after ≡ some w')
          × (w'.build_lock ≡ false)
          × (w'.status ≡ (if r.success then idle else failed)))

  -- A build of an unlocked workspace either raises, and leaves the workspace unlocked but with the
  -- status "building", or returns its report. Then `success` says that there are no errors, the
  -- files built and the errors add up to the Python files found, and the workspace is unlocked and
  -- idle or in error accordingly.
  pub build-Outcome :
      {w : Workspace} → Dict.get ident s.manager.items ≡ some w → w.build_lock ≡ false → Outcome w
  unfolding settle log
  build-Outcome {w} found free =
      let s1 = update D ident lock s in
      let locked = at_update lock s found in
      elim (body_state w s1) [
        | inl (e, h) ↦
            let whole = build_raises found free h in
            inl (e, rw whole, rw (whole, at_update unlock s1 locked))
        | inr (t, rust, sources, g, k, h) ↦
            let whole = build_returns found free h in
            let s2 = update D ident (settle utc t) s1 in
            let end = at_update unlock s2 (at_update (settle utc t) s1 locked) in
            inr (
              report t rust,
              unlock (settle utc t (lock w)),
              sources,
              rw whole,
              rw (← (processes-update D ident lock s).1) g,
              omega
                  (arith, compile_all-count compile sources (record { built = 0; errors = [] }) k),
              is_nil_iff t.errors,
              rw (whole, end),
              refl,
              refl,
            )
      ]
