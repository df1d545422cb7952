-- ===== src/Scripts/Dds/Load/Laws.antt =====
-- The end of the workers and the processes of scripts/benchmark_dds.py.
use rosplus.Base.{ℕ, ◌≡◌, refl, ◌∙◌, subst, List, [], ◌∷◌, Bool-cases, inl, inr}
use rosplus.Exec.{ok, Act, pure, ◌>>◌}
use rosplus.Json.{Json}
use rosplus.Scripts.Lab.{
  Lab, Session, Call, set_affinity, stop_workers, start_worker, join_worker, worker_alive,
  kill_worker, call,
}
use rosplus.Scripts.Lab.Cleanup.{end_all}
use rosplus.Scripts.Lab.Cleanup.Laws.{IsReaping, AllEnded, end_all-AllEnded}
use rosplus.Scripts.Fixture.{is_true}
use rosplus.Scripts.Dds.{Site, Options}
use rosplus.Scripts.Dds.Load.{each_worker, start_load, end_worker, end_workers, end_benchmark}

-- The calls of `multiprocessing` and of the scheduler succeed.
pub record IsWorking (L : Lab) : Type 0 where
  pub affinity :
      (cores : List ℕ) (s : L.State) → (j : Json) × ((L.perform (set_affinity cores) s).0 ≡ ok j)
  pub stop : (s : L.State) → (j : Json) × ((L.perform stop_workers s).0 ≡ ok j)
  pub start : (n : ℕ) (s : L.State) → (j : Json) × ((L.perform (start_worker n) s).0 ≡ ok j)
  pub join : (n : ℕ) (s : L.State) → (j : Json) × ((L.perform (join_worker n) s).0 ≡ ok j)
  pub alive : (n : ℕ) (s : L.State) → (j : Json) × ((L.perform (worker_alive n) s).0 ≡ ok j)
  pub kill : (n : ℕ) (s : L.State) → (j : Json) × ((L.perform (kill_worker n) s).0 ≡ ok j)

module _ (L : Lab) where
  -- An action that succeeds and starts no process.
  abbrev pub Harmless : {A : Type 0} → Act (Session L) A → Type 0
  Harmless m = (s : Session L) → (a : _) × ((m s).0 ≡ ok a) × ((m s).1.processes ≡ s.processes)

  Harmless-then :
      {A B : Type 0} (m : Act (Session L) A) (n : Act (Session L) B)
      → Harmless m
      → Harmless n
      → Harmless (m >> n)
  Harmless-then m n hm hn s =
      let (a, fine, same) = hm s in
      let (b, fine', same') = hn (m s).1 in rw fine (b, fine', same' ∙ same)

  -- A last part that ends every process.
  abbrev pub Clears : Act (Session L) (Unit {0}) → Session L → Type 0
  Clears last t =
      ((last t).0 ≡ ok tt)
      × AllEnded L t.processes (last t).1.world
      × ((last t).1.processes ≡ t.processes)

  Harmless-Clears :
      {A : Type 0} (m : Act (Session L) A) (last : Act (Session L) (Unit {0}))
      → Harmless m
      → ((t : Session L) → Clears last t)
      → (t : Session L) → Clears (m >> last) t
  Harmless-Clears m last hm hl t =
      let (a, fine, same) = hm t in
      let (ended, all, kept) = hl (m t).1 in
      let w = (last (m t).1).1.world in
      rw fine (ended, subst (λ ps. AllEnded L ps w) same all, kept ∙ same)

  Harmless-call :
      (c : Call) → ((s : L.State) → (j : Json) × ((L.perform c s).0 ≡ ok j)) → Harmless (call L c)
  Harmless-call c fine s = let (j, e) = fine s.world in (j, e, refl)

  Harmless-tt : Harmless {A = Unit {0}} (pure tt)
  Harmless-tt s = (tt, refl, refl)

module _ (L : Lab) (W : IsWorking L) where
  Harmless-each_worker :
      (c : ℕ → Call) (workers : List ℕ)
      → ((n : ℕ) (s : L.State) → (j : Json) × ((L.perform (c n) s).0 ≡ ok j))
      → Harmless L (each_worker L c workers)
  unfolding each_worker
  Harmless-each_worker c [] fine s = (tt, refl, refl)
  Harmless-each_worker c (n ∷ ns) fine s =
      Harmless-then L (call L (c n)) (each_worker L c ns) (Harmless-call L (c n) (fine n))
        (Harmless-each_worker c ns fine) s

  pub Harmless-start_load : (e : Site) (o : Options) → Harmless L (start_load L e o)
  unfolding start_load
  Harmless-start_load e o = elim (Bool-cases o.load) [
    | inl loaded ↦ rw loaded (
        Harmless-then L (call L (set_affinity e.cores)) (each_worker L start_worker e.cores)
          (Harmless-call L (set_affinity e.cores) (W.affinity e.cores))
          (Harmless-each_worker start_worker e.cores W.start))
    | inr idle ↦ rw idle (Harmless-tt L)
  ]

  Harmless-kill :
      (n : ℕ)
      → Harmless L (call L (kill_worker n) >> call L (join_worker n) >> pure {A = Unit {0}} tt)
  Harmless-kill n =
      Harmless-then L (call L (kill_worker n) >> call L (join_worker n)) (pure tt)
        (Harmless-then L (call L (kill_worker n)) (call L (join_worker n))
          (Harmless-call L (kill_worker n) (W.kill n)) (Harmless-call L (join_worker n) (W.join n)))
        (Harmless-tt L)

  Harmless-end_worker : (n : ℕ) → Harmless L (end_worker L n)
  unfolding end_worker
  Harmless-end_worker n s =
      let (_, joined) = W.join n s.world in
      let w1 = (L.perform (join_worker n) s.world).1 in
      let (alive, asked) = W.alive n w1 in
      elim (Bool-cases (is_true alive)) [
        | inl lives ↦ rw (joined, asked, lives) (Harmless-kill n _)
        | inr over ↦ rw (joined, asked, over) (tt, refl, refl)
      ]

  Harmless-end_workers : (workers : List ℕ) → Harmless L (end_workers L workers)
  unfolding end_workers
  Harmless-end_workers [] s = (tt, refl, refl)
  Harmless-end_workers (n ∷ ns) s =
      Harmless-then L (end_worker L n) (end_workers L ns) (Harmless-end_worker n)
        (Harmless-end_workers ns) s

  -- The last part ends every process, whatever the workers do.
  pub end_benchmark-AllEnded :
      (R : IsReaping L) (workers : List ℕ) (t : Session L) → Clears L (end_benchmark L workers) t
  unfolding end_benchmark
  end_benchmark-AllEnded R workers t =
      let last = end_all L 2_000_000 (λ ps. ps) in
      Harmless-Clears L (call L stop_workers) (end_workers L workers >> last)
        (Harmless-call L stop_workers W.stop)
        (Harmless-Clears L (end_workers L workers) last (Harmless-end_workers workers)
          (end_all-AllEnded L R 2_000_000))
        t
