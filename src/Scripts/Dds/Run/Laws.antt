-- ===== src/Scripts/Dds/Run/Laws.antt =====
-- The end of scripts/benchmark_dds.py and of its processes.
use rosplus.Base.{ℕ, List, [], ◌∷◌}
use rosplus.Exec.Task.{step, ◌>>◌}
use rosplus.Exec.Task.Ends.{
  Ends, Ends-done, Ends-step, Ends-if, Ends-then, Ends-bind, first, first_bind,
}
use rosplus.Json.{Json}
use rosplus.Scripts.Lab.{Lab, Session}
use rosplus.Scripts.Lab.Cleanup.Laws.{IsReaping}
use rosplus.Scripts.Lab.Clean.{EndsClean, closed-clean}
use rosplus.Scripts.Dds.{Site, Options}
use rosplus.Scripts.Dds.Load.{start_load, workers_of, end_benchmark}
use rosplus.Scripts.Dds.Load.Laws.{IsWorking, Harmless-start_load, end_benchmark-AllEnded}
use rosplus.Scripts.Dds.Run.{take_load, add_load, wait_each, complete, dds_body, benchmark}

module _ (L : Lab) (e : Site) (o : Options) where
  Ends-wait_each : (pids : List ℕ) → Ends (wait_each L pids)
  unfolding wait_each
  Ends-wait_each [] = Ends-done tt
  Ends-wait_each (pid ∷ pids) = first _ (Ends-wait_each pids)

  Ends-add_load : (j : Json) → Ends (add_load L e o j)
  unfolding add_load take_load
  Ends-add_load j =
      Ends-if o.load _ _ (first _ (first _ (first_bind _ (λ samples. Ends-step _)))) (Ends-done j)

  Ends-complete : Ends (complete L e o)
  unfolding complete
  Ends-complete =
      first_bind _
        (λ report. first_bind _ (λ log. first_bind _ (λ result. first_bind _ Ends-add_load)))

  Ends-dds_body : Ends (dds_body L e o)
  unfolding dds_body
  Ends-dds_body = first _ (
      first _ (
        first _ (
          first_bind _ (λ pids.
            Ends-then _ _ (Ends-wait_each pids)
              (Ends-bind _ _ Ends-complete (λ result. Ends-step _))))))

pub benchmark-EndsClean :
    (L : Lab) (e : Site) (o : Options) (s : Session L)
    → IsWorking L
    → IsReaping L
    → EndsClean L (benchmark L e o) s
unfolding benchmark ◌>>◌ step
benchmark-EndsClean L e o s W R =
    let (_, fine, same) = Harmless-start_load L W e o s in
    let t = (start_load L e o s).1 in
    let clean =
      closed-clean L (dds_body L e o) (end_benchmark L (workers_of L e o)) t (Ends-dds_body L e o)
        (end_benchmark-AllEnded L W R (workers_of L e o)) in
    rw fine clean
