-- ===== src/Scripts/Lab/Cleanup.antt =====
-- The last part of the scripts: every process is signalled, and then waited for or killed.
pub mod Laws
use rosplus.Base.{ℕ, Bool, true, false, Option, none, some, List, [], ◌∷◌, reversed}
use rosplus.Exec.{Result, ok, raise, Act, pure, proceed, ◌>>=◌, ◌>>◌}
use rosplus.Scripts.Lab.{Lab, Session, Signal, sigint, sigterm, sigkill, on_world}

module _ (L : Lab) where
  -- `if process.poll() is None: os.killpg(process.pid, signal)`
  unfoldable pub signal_live : Signal → ℕ → Act L.State (Unit {0})
  signal_live signal pid s = elim (L.poll pid s) [
    | none ↦ L.killpg signal pid s
    | some code ↦ (ok tt, s)
  ]

  unfoldable pub signal_all : Signal → List ℕ → Act L.State (Unit {0})
  signal_all signal [] = pure tt
  signal_all signal (pid ∷ pids) = do signal_live signal pid; signal_all signal pids

  abbrev pub join_after : ℕ → Result (Unit {0}) × L.State → Result (Unit {0}) × L.State
  join_after pid (ok _, s) = (ok tt, L.join pid s)
  join_after pid (raise e, s) = (raise e, s)

  -- `try: process.wait(timeout=limit) except TimeoutExpired: os.killpg(pid, SIGKILL); wait()`
  unfoldable pub reap : ℕ → ℕ → Act L.State (Unit {0})
  reap limit pid s =
      let (ended, s1) = L.wait pid limit s in
      elim ended [ true ↦ (ok tt, s1) | false ↦ join_after pid (L.killpg sigkill pid s1) ]

  unfoldable pub reap_all : ℕ → List ℕ → Act L.State (Unit {0})
  reap_all limit [] = pure tt
  reap_all limit (pid ∷ pids) = do reap limit pid; reap_all limit pids

  -- Every process of the list is signalled, and then waited for.
  unfoldable pub end_all : ℕ → (List ℕ → List ℕ) → Act (Session L) (Unit {0})
  end_all limit order s =
      on_world L (do signal_all sigterm s.processes; reap_all limit (order s.processes)) s

  -- The `finally` of the validation and capture scripts, which wait three seconds for each, the last
  -- process first.
  abbrev pub cleanup : Act (Session L) (Unit {0})
  cleanup = end_all 3_000_000 reversed

  -- `terminate` of validate_recorded_bag.py
  unfoldable pub terminate : Bool → ℕ → Act L.State (Unit {0})
  unfolding signal_live reap
  terminate interrupt pid = do
    signal_live (elim interrupt [ true ↦ sigint | false ↦ sigterm ]) pid
    reap 5_000_000 pid

  -- The first loop of the `finally` of validate_recorded_bag.py.
  unfoldable pub terminate_all : List ℕ → Act L.State (Unit {0})
  terminate_all [] = pure tt
  terminate_all (pid ∷ pids) = do terminate false pid; terminate_all pids
