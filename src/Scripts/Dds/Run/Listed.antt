-- ===== src/Scripts/Dds/Run/Listed.antt =====
-- The list `processes` of scripts/benchmark_dds.py.
use rosplus.Base.{
  ℕ, String, Bool, true, false, List, [], ◌∷◌, inl, inr, Bool-cases, Option-cases, ◌∙◌,
  if◌then◌else◌,
}
use rosplus.Exec.{Result, pure, lift, ◌>>◌}
use rosplus.Exec.Task.Keeps.{
  Steady, Keeps, Keeps-done, Keeps-then, Keeps-step, Steady-proceed, Steady-pure,
}
use rosplus.Scripts.Lab.{
  Lab, Session, Call, set_affinity, start_worker, stop_workers, join_worker, worker_alive,
  kill_worker, worker_sample, call,
}
use rosplus.Scripts.Lab.Await.{wait_zero}
use rosplus.Scripts.Lab.Cleanup.Laws.{IsReaping}
use rosplus.Scripts.Lab.Counting.{
  Counting, Listed, EndsAll, ends_all, listed_rules, Steady-call, Steady-end_all,
}
use rosplus.Scripts.Fixture.{is_true}
use rosplus.Scripts.Dds.{Site, Options}
use rosplus.Scripts.Dds.Load.{
  each_worker, samples_of, start_load, end_worker, end_workers, end_benchmark,
}
use rosplus.Scripts.Dds.Load.Laws.{IsWorking}
use rosplus.Scripts.Dds.Run.{
  take_load, add_load, wait_each, read_report, complete, dds_body, benchmark,
}
use rosplus.Scripts.Dds.Run.Laws.{benchmark-EndsClean}

module _ (L : Lab) (C : Counting L) where
  Steady-lift : {A : Type 0} (r : Result A) → Steady (Listed L C) (lift r)
  Steady-lift r = record { at = λ s h. h }

  Steady-each_worker :
      (c : ℕ → Call) (workers : List ℕ) → Steady (Listed L C) (each_worker L c workers)
  unfolding each_worker
  Steady-each_worker c [] = Steady-pure tt
  Steady-each_worker c (n ∷ ns) =
      Steady-proceed _ _ (Steady-call L C (c n)) (λ _. Steady-each_worker c ns)

  Steady-samples_of : (workers : List ℕ) → Steady (Listed L C) (samples_of L workers)
  unfolding samples_of
  Steady-samples_of [] = Steady-pure []
  Steady-samples_of (n ∷ ns) =
      Steady-proceed _ _ (Steady-call L C worker_sample)
        (λ j. Steady-proceed _ _ (Steady-samples_of ns) (λ js. Steady-pure (j ∷ js)))

  Steady-start_load : (e : Site) (o : Options) → Steady (Listed L C) (start_load L e o)
  unfolding start_load
  Steady-start_load e o = elim (Bool-cases o.load) [
    | inl loaded ↦ rw loaded (
        Steady-proceed _ _ (Steady-call L C (set_affinity e.cores))
          (λ _. Steady-each_worker start_worker e.cores))
    | inr idle ↦ rw idle (Steady-pure tt)
  ]

  Steady-end_worker : (n : ℕ) → Steady (Listed L C) (end_worker L n)
  unfolding end_worker
  Steady-end_worker n =
      Steady-proceed _ _ (Steady-call L C (join_worker n))
        (λ _. Steady-proceed _ _ (Steady-call L C (worker_alive n)) (λ j. ending n (is_true j)))
    where
      ending :
          (n : ℕ) (b : Bool)
          → Steady (Listed L C) (
              if b
              then (call L (kill_worker n) >> call L (join_worker n) >> pure {A = Unit {0}} tt)
              else pure tt)
      ending n true =
          Steady-proceed _ _
            (Steady-proceed _ _ (Steady-call L C (kill_worker n))
              (λ _. Steady-call L C (join_worker n)))
            (λ _. Steady-pure tt)
      ending n false = Steady-pure tt

  Steady-end_workers : (ns : List ℕ) → Steady (Listed L C) (end_workers L ns)
  unfolding end_workers
  Steady-end_workers [] = Steady-pure tt
  Steady-end_workers (n ∷ ns) =
      Steady-proceed _ _ (Steady-end_worker n) (λ _. Steady-end_workers ns)

  Steady-end_benchmark : (ns : List ℕ) → Steady (Listed L C) (end_benchmark L ns)
  unfolding end_benchmark
  Steady-end_benchmark ns = Steady-proceed _ _ (Steady-call L C stop_workers) (λ _.
      Steady-proceed _ _ (Steady-end_workers ns) (λ _. Steady-end_all L C 2_000_000 (λ ps. ps)))

  Steady-wait_zero :
      (limit : ℕ) (message : L.State → String) (pid : ℕ)
      → Steady (Listed L C) (wait_zero L limit message pid)
  unfolding wait_zero
  Steady-wait_zero limit message pid = record {
    at = λ s h.
        let kept = C.started-wait pid limit s.world ∙ h in
        let w = (L.wait pid limit s.world).1 in
        elim (Bool-cases (L.wait pid limit s.world).0) [
          | inr late ↦ rw (wait_zero, late) kept
          | inl over ↦ elim (Option-cases (L.poll pid w)) [
            | inl live ↦ rw (wait_zero, over, live) kept
            | inr (code, ended) ↦ rw (wait_zero, over, ended) kept
          ]
        ];
  }

  Keeps-wait_each : (pids : List ℕ) → Keeps (Listed L C) (wait_each L pids)
  unfolding wait_each
  Keeps-wait_each [] = Keeps-done tt
  Keeps-wait_each (pid ∷ pids) =
      Keeps-then _ _ (Keeps-step _ (Steady-wait_zero 35_000_000 L.log pid)) (Keeps-wait_each pids)

  Steady-read_report : Steady (Listed L C) (read_report L)
  Steady-read_report = record { at = λ s h. h }

  Keeps-complete : (e : Site) (o : Options) → Keeps (Listed L C) (complete L e o)
  unfolding complete add_load take_load
  Keeps-complete e o =
      search (listed_rules, Steady-read_report, Steady-lift, Steady-each_worker, Steady-samples_of)
        depth 16

  Keeps-benchmark : (e : Site) (o : Options) → Keeps (Listed L C) (benchmark L e o)
  unfolding benchmark dds_body
  Keeps-benchmark e o =
      search
        (listed_rules, Steady-start_load, Keeps-wait_each, Keeps-complete, Steady-end_benchmark)
        depth 16

-- Where processes and workers can be ended, and if the list `processes` has at first the processes
-- that were started, a benchmark comes to its end, returning or raising; and then none of the
-- processes that `Popen` has started for it is alive.
pub benchmark-EndsAll :
    (L : Lab) (C : Counting L) (e : Site) (o : Options) (s : Session L)
    → IsWorking L
    → IsReaping L
    → Listed L C s
    → EndsAll L C (benchmark L e o) s
benchmark-EndsAll L C e o s W R listed =
    ends_all L C _ s (benchmark-EndsClean L e o s W R) (Keeps-benchmark L C e o) listed
