-- ===== src/Scripts/Lab/Clean.antt =====
-- The end of a script and of its processes.
use rosplus.Base.{ℕ, ◌≡◌, refl, some}
use rosplus.Exec.{Result, ok, Act}
use rosplus.Exec.Task.{Task, try_finally}
use rosplus.Exec.Task.Ends.{Ends}
use rosplus.Scripts.Lab.{Lab, Session, on_world}
use rosplus.Scripts.Lab.Cleanup.{cleanup, end_all, terminate_all}
use rosplus.Scripts.Lab.Cleanup.Laws.{
  IsReaping, AllEnded, cleanup-AllEnded, end_all-AllEnded, terminate_all-AllEnded,
}

-- What holds when `main` has ended: it did end, and no process on its list is alive.
abbrev pub EndsClean : (L : Lab) → Task (Session L) (Unit {0}) → Session L → Type 0
EndsClean L m s =
    (r : Result (Unit {0})) × (s' : Session L) × (m s ≡ some (r, s'))
    × AllEnded L s'.processes s'.world

-- A `finally` that ends every process leaves none alive, whatever its body came to.
pub closed-clean :
    (L : Lab) (m : Task (Session L) (Unit {0})) (last : Act (Session L) (Unit {0})) (s : Session L)
    → Ends m
    → ((t : Session L)
        → ((last t).0 ≡ ok tt)
          × AllEnded L t.processes (last t).1.world
          × ((last t).1.processes ≡ t.processes))
    → EndsClean L (try_finally m last) s
unfolding try_finally
closed-clean L m last s em clears =
    let ((r, s1), e) = em.at s in
    let (fine, all, kept) = clears s1 in
    (r, (last s1).1, rw (try_finally, e, fine) refl, rw kept all)

pub try_finally-clean :
    (L : Lab) (R : IsReaping L) (m : Task (Session L) (Unit {0})) (s : Session L)
    → Ends m
    → EndsClean L (try_finally m (cleanup L)) s
try_finally-clean L R m s em = closed-clean L m (cleanup L) s em (cleanup-AllEnded L R)

pub try_finally-end_all :
    (L : Lab) (R : IsReaping L) (limit : ℕ) (m : Task (Session L) (Unit {0})) (s : Session L)
    → Ends m
    → EndsClean L (try_finally m (end_all L limit (λ ps. ps))) s
try_finally-end_all L R limit m s em =
    closed-clean L m (end_all L limit (λ ps. ps)) s em (end_all-AllEnded L R limit)

pub try_finally-terminate_all :
    (L : Lab) (R : IsReaping L) (m : Task (Session L) (Unit {0})) (s : Session L)
    → Ends m
    → EndsClean L (try_finally m (λ t. on_world L (terminate_all L t.processes) t)) s
try_finally-terminate_all L R m s em =
    closed-clean L m (λ t. on_world L (terminate_all L t.processes) t) s em
      (λ t. let (fine, all) = terminate_all-AllEnded L R t.processes t.world in (fine, all, refl))
