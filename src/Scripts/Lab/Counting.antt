-- ===== src/Scripts/Lab/Counting.antt =====
-- The processes that the operating system has started for a script, beside its list `processes`.
use rosplus.Base.{
  ℕ, ◌+◌, ◌≡◌, sym, ◌∙◌, ap, subst, String, Bool, true, Option, none, some, List, [], ◌∷◌, ◌++◌,
  inl, inr, Bool-cases, Option-cases, ltb, ◌&&◌,
}
use rosplus.Exec.{Result, ok, raise, Act, Result-cases}
use rosplus.Exec.Errors.{Exception}
use rosplus.Exec.Task.{Task}
use rosplus.Exec.Task.Keeps.{
  Steady, Keeps, Keeps-done, Keeps-fail, Keeps-if, Keeps-step, Keeps-bind, Keeps-then, Keeps-loop,
  Steady-gets, Steady-pure, Steady-proceed, keeps_rules,
}
use rosplus.Json.{Json}
use rosplus.Scripts.Lab.{
  Lab, Session, Signal, sigkill, sigterm, Call, spin_once, on_world, call, sleep, launch,
  child_error, wait_while, checked_sleep, checked_spin, spin_checked, runtime_error,
}
use rosplus.Scripts.Lab.Cleanup.Laws.{AllEnded}
use rosplus.Scripts.Lab.Clean.{EndsClean}
use rosplus.Scripts.Lab.Await.{await, await_value, or_fail}
use rosplus.Scripts.Lab.Cleanup.{signal_live, signal_all, reap, reap_all, end_all}

-- Which processes have been started: `Popen` adds the one that it gives, in order, and nothing else
-- starts one.
pub record Counting (L : Lab) : Type 0 where
  pub started : L.State → List ℕ
  pub started-popen :
      (command : List String) (pid : ℕ) (s : L.State)
      → (L.popen command s).0 ≡ ok pid
      → started (L.popen command s).1 ≡ started s ++ pid ∷ []
  pub started-refused :
      (command : List String) (e : Exception) (s : L.State)
      → (L.popen command s).0 ≡ raise e
      → started (L.popen command s).1 ≡ started s
  pub started-killpg :
      (sig : Signal) (p : ℕ) (s : L.State) → started (L.killpg sig p s).1 ≡ started s
  pub started-wait : (p n : ℕ) (s : L.State) → started (L.wait p n s).1 ≡ started s
  pub started-join : (p : ℕ) (s : L.State) → started (L.join p s) ≡ started s
  pub started-sleep : (n : ℕ) (s : L.State) → started (L.sleep n s) ≡ started s
  pub started-perform : (c : Call) (s : L.State) → started (L.perform c s).1 ≡ started s
  pub started-write :
      (path : String) (j : Json) (s : L.State) → started (L.write path j s).1 ≡ started s

module _ (L : Lab) (C : Counting L) where
  -- The list of the script is the list of the processes that were started for it.
  abbrev pub Listed : Session L → Type 0
  Listed s = C.started s.world ≡ s.processes

  pub Steady-call : (c : Call) → Steady Listed (call L c)
  Steady-call c = record { at = λ s h. C.started-perform c s.world ∙ h }

  pub Steady-sleep : (n : ℕ) → Steady Listed (sleep L n)
  Steady-sleep n = record { at = λ s h. C.started-sleep n s.world ∙ h }

  pub Steady-write : (path : String) (j : Json) → Steady Listed (on_world L (L.write path j))
  Steady-write path j = record { at = λ s h. C.started-write path j s.world ∙ h }

  pub Steady-launch : (command : List String) → Steady Listed (launch L command)
  unfolding launch
  Steady-launch command = record {
    at = λ s h. elim (Result-cases (L.popen command s.world).0) [
      | inl (pid, fine) ↦
          rw (launch, fine) (C.started-popen command pid s.world fine ∙ ap (λ ps. ps ++ pid ∷ []) h)
      | inr (e, failed) ↦ rw (launch, failed) (C.started-refused command e s.world failed ∙ h)
    ];
  }

  pub Steady-child_error : (child : ℕ) → Steady Listed (child_error L child)
  unfolding child_error
  Steady-child_error child = record {
    at = λ s h. elim (Option-cases (L.poll child s.world)) [
      | inl live ↦ rw (child_error, live) h
      | inr (code, over) ↦ rw (child_error, over) h
    ];
  }

  module _ {A : Type 0} (child : ℕ) where
    pub Steady-checked_sleep : (n : ℕ) → Steady Listed (checked_sleep L {A = A} child n)
    unfolding checked_sleep
    Steady-checked_sleep n =
        Steady-proceed _ _ (Steady-child_error child)
          (λ _. Steady-proceed _ _ (Steady-sleep n) (λ _. Steady-pure none))

    pub Steady-checked_spin : Steady Listed (checked_spin L {A = A} child)
    unfolding checked_spin
    Steady-checked_spin =
        Steady-proceed _ _ (Steady-child_error child)
          (λ _. Steady-proceed _ _ (Steady-call spin_once) (λ _. Steady-pure none))

    pub Steady-spin_checked : Steady Listed (spin_checked L {A = A} child)
    unfolding spin_checked
    Steady-spin_checked =
        Steady-proceed _ _ (Steady-call spin_once)
          (λ _. Steady-proceed _ _ (Steady-child_error child) (λ _. Steady-pure none))

  pub Keeps-wait_while :
      {A : Type 0} (fuel limit : ℕ) (pending : Session L → Bool)
      (round : Act (Session L) (Option A))
      → Steady Listed round
      → Keeps Listed (wait_while L fuel limit pending round)
  unfolding wait_while
  Keeps-wait_while fuel limit pending round steady = record {
    at = λ s r t e p.
        let deadline = L.clock s.world + limit in
        (Keeps-loop fuel (λ u. pending u && ltb (L.clock u.world) deadline) round steady).at s r t e
          p;
  }

  pub Keeps-await :
      (fuel limit : ℕ) (pending : Session L → Bool) (round : Act (Session L) (Option (Unit {0})))
      (message : String)
      → Steady Listed round
      → Keeps Listed (await L fuel limit pending round message)
  unfolding await
  Keeps-await fuel limit pending round message steady =
      Keeps-then _ _ (Keeps-wait_while fuel limit pending round steady) (
        Keeps-bind _ _ (Keeps-step _ (Steady-gets pending))
          (λ still. Keeps-if still _ _ (Keeps-fail _) (Keeps-done tt)))

  Keeps-or_fail : {A : Type 0} (e : Exception) (o : Option A) → Keeps Listed (or_fail L e o)
  Keeps-or_fail e none = Keeps-fail e
  Keeps-or_fail e (some a) = Keeps-done a

  pub Keeps-await_value :
      {A : Type 0} (fuel limit : ℕ) (round : Act (Session L) (Option A)) (message : String)
      → Steady Listed round
      → Keeps Listed (await_value L fuel limit round message)
  unfolding await_value
  Keeps-await_value fuel limit round message steady =
      Keeps-bind _ _ (Keeps-wait_while fuel limit (λ _. true) round steady)
        (Keeps-or_fail (runtime_error message))

  -- The last part starts nothing.
  abbrev Since : List ℕ → L.State → Type 0
  Since ps w = C.started w ≡ ps

  Steady-signal_live :
      (ps : List ℕ) (sig : Signal) (pid : ℕ) → Steady (Since ps) (signal_live L sig pid)
  unfolding signal_live
  Steady-signal_live ps sig pid = record {
    at = λ s h. elim (Option-cases (L.poll pid s)) [
      | inl live ↦ rw (signal_live, live) (C.started-killpg sig pid s ∙ h)
      | inr (code, over) ↦ rw (signal_live, over) h
    ];
  }

  Steady-signal_all :
      (ps : List ℕ) (sig : Signal) (pids : List ℕ) → Steady (Since ps) (signal_all L sig pids)
  unfolding signal_all
  Steady-signal_all ps sig [] = record { at = λ s h. h }
  Steady-signal_all ps sig (pid ∷ pids) =
      Steady-proceed _ _ (Steady-signal_live ps sig pid) (λ _. Steady-signal_all ps sig pids)

  Steady-reap : (ps : List ℕ) (limit pid : ℕ) → Steady (Since ps) (reap L limit pid)
  unfolding reap
  Steady-reap ps limit pid = record {
    at = λ s h.
        let waited = C.started-wait pid limit s in
        let s1 = (L.wait pid limit s).1 in
        elim (Bool-cases (L.wait pid limit s).0) [
          | inl over ↦ rw (reap, over) (waited ∙ h)
          | inr live ↦ elim (Result-cases (L.killpg sigkill pid s1).0) [
            | inl (x, fine) ↦
                let s2 = (L.killpg sigkill pid s1).1 in
                rw (reap, live, fine)
                  (C.started-join pid s2 ∙ C.started-killpg sigkill pid s1 ∙ waited ∙ h)
            | inr (e, failed) ↦
                rw (reap, live, failed) (C.started-killpg sigkill pid s1 ∙ waited ∙ h)
          ]
        ];
  }

  Steady-reap_all :
      (ps : List ℕ) (limit : ℕ) (pids : List ℕ) → Steady (Since ps) (reap_all L limit pids)
  unfolding reap_all
  Steady-reap_all ps limit [] = record { at = λ s h. h }
  Steady-reap_all ps limit (pid ∷ pids) =
      Steady-proceed _ _ (Steady-reap ps limit pid) (λ _. Steady-reap_all ps limit pids)

  pub Steady-end_all : (limit : ℕ) (order : List ℕ → List ℕ) → Steady Listed (end_all L limit order)
  unfolding end_all
  Steady-end_all limit order = record {
    at = λ s h.
        (Steady-proceed _ _ (Steady-signal_all s.processes sigterm s.processes)
            (λ _. Steady-reap_all s.processes limit (order s.processes))).at
          s.world h;
  }

  -- What holds when `main` has ended: it did end, and no process that was started for it is alive.
  abbrev pub EndsAll : Task (Session L) (Unit {0}) → Session L → Type 0
  EndsAll m s =
      (r : Result (Unit {0})) × (s' : Session L) × (m s ≡ some (r, s'))
      × AllEnded L (C.started s'.world) s'.world

  pub ends_all :
      (m : Task (Session L) (Unit {0})) (s : Session L)
      → EndsClean L m s
      → Keeps Listed m
      → Listed s
      → EndsAll m s
  ends_all m s clean keeps listed =
      let (r, s', e, all) = clean in
      let kept = keeps.at s r s' e listed in
      (r, s', e, subst (λ ps. AllEnded L ps s'.world) (sym kept) all)

  pub ruleset listed_rules = (
    keeps_rules, Steady-call, Steady-sleep, Steady-write, Steady-launch, Steady-child_error,
    Steady-checked_sleep, Steady-checked_spin, Steady-spin_checked, Keeps-await, Keeps-await_value,
    Keeps-wait_while,
  )
