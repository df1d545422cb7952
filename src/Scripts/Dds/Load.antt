-- ===== src/Scripts/Dds/Load.antt =====
-- The workers of scripts/benchmark_dds.py, and the end of a run.
pub mod Laws
use rosplus.Base.{ℕ, Bool, true, false, List, [], ◌∷◌, if◌then◌else◌}
use rosplus.Exec.{Result, ok, raise, Act, pure, proceed, ◌>>=◌, ◌>>◌}
use rosplus.Json.{Json}
use rosplus.Scripts.Lab.{
  Lab, Session, Call, set_affinity, stop_workers, worker_sample, start_worker, join_worker,
  worker_alive, kill_worker, call,
}
use rosplus.Scripts.Lab.Cleanup.{end_all}
use rosplus.Scripts.Fixture.{is_true}
use rosplus.Scripts.Dds.{Site, Options}

module _ (L : Lab) where
  -- The same call for each worker.
  unfoldable pub each_worker : (ℕ → Call) → List ℕ → Act (Session L) (Unit {0})
  each_worker c [] = pure tt
  each_worker c (worker ∷ workers) = do call L (c worker); each_worker c workers

  unfoldable pub samples_of : List ℕ → Act (Session L) (List Json)
  samples_of [] = pure []
  samples_of (worker ∷ workers) = do
    sample ← call L worker_sample
    samples ← samples_of workers
    pure (sample ∷ samples)

  -- What comes before the `try`, and the workers that it starts.
  unfoldable pub start_load : Site → Options → Act (Session L) (Unit {0})
  unfolding each_worker
  start_load e o =
      if o.load
      then (do call L (set_affinity e.cores); each_worker start_worker e.cores)
      else pure tt

  abbrev pub workers_of : Site → Options → List ℕ
  workers_of e o = if o.load then e.cores else []

  -- A worker that is alive when its time is up is killed.
  unfoldable pub end_worker : ℕ → Act (Session L) (Unit {0})
  end_worker worker = do
    call L (join_worker worker)
    alive ← call L (worker_alive worker)
    if is_true alive
        then (call L (kill_worker worker) >> call L (join_worker worker) >> pure tt)
        else pure tt

  unfoldable pub end_workers : List ℕ → Act (Session L) (Unit {0})
  unfolding end_worker
  end_workers [] = pure tt
  end_workers (worker ∷ workers) = do end_worker worker; end_workers workers

  -- The `finally`.
  unfoldable pub end_benchmark : List ℕ → Act (Session L) (Unit {0})
  unfolding end_workers end_all
  end_benchmark workers = do
    call L stop_workers
    end_workers workers
    end_all L 2_000_000 (λ ps. ps)
