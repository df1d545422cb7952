-- ===== src/Scripts/Lab/Cleanup/Laws.antt =====
-- The processes of a script after its last part.
use rosplus.Base.{
  ℕ, ◌≡◌, refl, inl, inr, Bool, true, false, Option, none, some, List, [], ◌∷◌, ◌++◌, arith,
  reversed, Bool-cases, Option-cases,
}
use rosplus.Exec.{ok, ◌>>◌}
use rosplus.Process.Table.{ExitCode}
use rosplus.Scripts.Lab.{Lab, Session, Signal, sigint, sigterm, sigkill}
use rosplus.Scripts.Lab.Cleanup.{
  signal_live, signal_all, reap, reap_all, end_all, cleanup, terminate, terminate_all,
}

abbrev pub is_ended : Option ExitCode → Bool
is_ended none = false
is_ended (some c) = true

-- What the operating system does with processes: one that has ended stays so, one that was not
-- waited for can be signalled, and waiting comes back when the process has ended or time is up.
pub record IsReaping (L : Lab) : Type 0 where
  pub ended-killpg :
      (sig : Signal) (p q : ℕ) (s : L.State)
      → is_ended (L.poll p s) ≡ true
      → is_ended (L.poll p (L.killpg sig q s).1) ≡ true
  pub ended-wait :
      (n p q : ℕ) (s : L.State)
      → is_ended (L.poll p s) ≡ true
      → is_ended (L.poll p (L.wait q n s).1) ≡ true
  pub ended-join :
      (p q : ℕ) (s : L.State)
      → is_ended (L.poll p s) ≡ true
      → is_ended (L.poll p (L.join q s)) ≡ true
  pub killpg-ok :
      (sig : Signal) (p : ℕ) (s : L.State) → L.poll p s ≡ none → (L.killpg sig p s).0 ≡ ok tt
  pub wait-ended :
      (n p : ℕ) (s : L.State)
      → (L.wait p n s).0 ≡ true
      → is_ended (L.poll p (L.wait p n s).1) ≡ true
  pub wait-live :
      (n p : ℕ) (s : L.State) → (L.wait p n s).0 ≡ false → L.poll p (L.wait p n s).1 ≡ none
  pub join-ended : (p : ℕ) (s : L.State) → is_ended (L.poll p (L.join p s)) ≡ true

module _ (L : Lab) where
  abbrev pub Ended : ℕ → L.State → Type 0
  Ended p s = is_ended (L.poll p s) ≡ true

  abbrev pub AllEnded : List ℕ → L.State → Type 0
  AllEnded [] s = Unit
  AllEnded (p ∷ ps) s = Ended p s × AllEnded ps s

  AllEnded-append :
      (ps qs : List ℕ) (s : L.State) → AllEnded ps s → AllEnded qs s → AllEnded (ps ++ qs) s
  AllEnded-append [] qs s h k = k
  AllEnded-append (p ∷ ps) qs s h k = (h.0, AllEnded-append ps qs s h.1 k)

  AllEnded-split :
      (ps qs : List ℕ) (s : L.State) → AllEnded (ps ++ qs) s → AllEnded ps s × AllEnded qs s
  AllEnded-split [] qs s h = (tt, h)
  AllEnded-split (p ∷ ps) qs s h = let (a, b) = AllEnded-split ps qs s h.1 in ((h.0, a), b)

  AllEnded-reversed : (ps : List ℕ) (s : L.State) → AllEnded (reversed ps) s → AllEnded ps s
  AllEnded-reversed [] s h = tt
  AllEnded-reversed (p ∷ ps) s h =
      let (a, b) = AllEnded-split (reversed ps) (p ∷ []) s h in (b.0, AllEnded-reversed ps s a)

module _ (L : Lab) (R : IsReaping L) where
  signal_live-ok : (sig : Signal) (p : ℕ) (s : L.State) → (signal_live L sig p s).0 ≡ ok tt
  unfolding signal_live
  signal_live-ok sig p s = elim (Option-cases (L.poll p s)) [
    | inl live ↦ rw (signal_live, live) (R.killpg-ok sig p s live)
    | inr (c, over) ↦ rw (signal_live, over) refl
  ]

  signal_live-keeps :
      (sig : Signal) (p q : ℕ) (s : L.State) → Ended L p s → Ended L p (signal_live L sig q s).1
  unfolding signal_live
  signal_live-keeps sig p q s h = elim (Option-cases (L.poll q s)) [
    | inl live ↦ rw (signal_live, live) (R.ended-killpg sig p q s h)
    | inr (c, over) ↦ rw (signal_live, over) h
  ]

  signal_all-ok : (sig : Signal) (ps : List ℕ) (s : L.State) → (signal_all L sig ps s).0 ≡ ok tt
  unfolding signal_all
  signal_all-ok sig [] s = refl
  signal_all-ok sig (p ∷ ps) s =
      let s1 = (signal_live L sig p s).1 in
      ground (arith, signal_live-ok sig p s, signal_all-ok sig ps s1)

  reap-Ended : (n p : ℕ) (s : L.State) → ((reap L n p s).0 ≡ ok tt) × Ended L p (reap L n p s).1
  unfolding reap
  reap-Ended n p s = elim (Bool-cases (L.wait p n s).0) [
    | inl over ↦ rw (reap, over) (refl, R.wait-ended n p s over)
    | inr live ↦
        let s1 = (L.wait p n s).1 in
        let killed = R.killpg-ok sigkill p s1 (R.wait-live n p s live) in
        rw (reap, live, killed) (refl, R.join-ended p (L.killpg sigkill p s1).1)
  ]

  reap-keeps : (n p q : ℕ) (s : L.State) → Ended L p s → Ended L p (reap L n q s).1
  unfolding reap
  reap-keeps n p q s h = elim (Bool-cases (L.wait q n s).0) [
    | inl over ↦ rw (reap, over) (R.ended-wait n p q s h)
    | inr live ↦
        let s1 = (L.wait q n s).1 in
        let killed = R.killpg-ok sigkill q s1 (R.wait-live n q s live) in
        rw (reap, live, killed)
          (R.ended-join p q (L.killpg sigkill q s1).1
            (R.ended-killpg sigkill p q s1 (R.ended-wait n p q s h)))
  ]

  reap_all-keeps :
      (n : ℕ) (qs : List ℕ) (p : ℕ) (s : L.State) → Ended L p s → Ended L p (reap_all L n qs s).1
  unfolding reap_all
  reap_all-keeps n [] p s h = h
  reap_all-keeps n (q ∷ qs) p s h =
      let s1 = (reap L n q s).1 in
      rw (reap_all, (reap-Ended n q s).0) (reap_all-keeps n qs p s1 (reap-keeps n p q s h))

  reap_all-AllEnded :
      (n : ℕ) (ps : List ℕ) (s : L.State)
      → ((reap_all L n ps s).0 ≡ ok tt) × AllEnded L ps (reap_all L n ps s).1
  unfolding reap_all
  reap_all-AllEnded n [] s = (refl, tt)
  reap_all-AllEnded n (p ∷ ps) s =
      let s1 = (reap L n p s).1 in
      let (fine, over) = reap-Ended n p s in
      let (r, rest) = reap_all-AllEnded n ps s1 in
      rw (reap_all, fine) (r, (reap_all-keeps n ps p s1 over, rest))

  -- Ended in an order that leaves no process out.
  end_all-lem :
      (limit : ℕ) (order : List ℕ → List ℕ) (s : Session L)
      → ((w : L.State) → AllEnded L (order s.processes) w → AllEnded L s.processes w)
      → ((end_all L limit order s).0 ≡ ok tt)
        × AllEnded L s.processes (end_all L limit order s).1.world
        × ((end_all L limit order s).1.processes ≡ s.processes)
  unfolding end_all
  end_all-lem limit order s covers =
      let s1 = (signal_all L sigterm s.processes s.world).1 in
      let (r, all) = reap_all-AllEnded limit (order s.processes) s1 in
      rw (end_all, signal_all-ok sigterm s.processes s.world) (r, covers _ all, refl)

  -- The last part raises nothing, and when it is over no process of the list is alive.
  pub cleanup-AllEnded :
      (s : Session L)
      → ((cleanup L s).0 ≡ ok tt)
        × AllEnded L s.processes (cleanup L s).1.world
        × ((cleanup L s).1.processes ≡ s.processes)
  cleanup-AllEnded s = end_all-lem 3_000_000 reversed s (AllEnded-reversed L s.processes)

  -- So too when the processes are waited for in the order in which they were started.
  pub end_all-AllEnded :
      (limit : ℕ) (s : Session L)
      → ((end_all L limit (λ ps. ps) s).0 ≡ ok tt)
        × AllEnded L s.processes (end_all L limit (λ ps. ps) s).1.world
        × ((end_all L limit (λ ps. ps) s).1.processes ≡ s.processes)
  end_all-AllEnded limit s = end_all-lem limit (λ ps. ps) s (λ w h. h)

  -- One signal and one wait.
  signal_reap-Ended :
      (sig : Signal) (p : ℕ) (s : L.State)
      → (((signal_live L sig p >> reap L 5_000_000 p) s).0 ≡ ok tt)
        × Ended L p ((signal_live L sig p >> reap L 5_000_000 p) s).1
  signal_reap-Ended sig p s =
      rw (signal_live-ok sig p s) (reap-Ended 5_000_000 p (signal_live L sig p s).1)

  signal_reap-keeps :
      (sig : Signal) (p q : ℕ) (s : L.State)
      → Ended L p s
      → Ended L p ((signal_live L sig q >> reap L 5_000_000 q) s).1
  signal_reap-keeps sig p q s h =
      rw (signal_live-ok sig q s)
        (reap-keeps 5_000_000 p q (signal_live L sig q s).1 (signal_live-keeps sig p q s h))

  terminate-Ended :
      (interrupt : Bool) (p : ℕ) (s : L.State)
      → ((terminate L interrupt p s).0 ≡ ok tt) × Ended L p (terminate L interrupt p s).1
  unfolding terminate
  terminate-Ended true p s = signal_reap-Ended sigint p s
  terminate-Ended false p s = signal_reap-Ended sigterm p s

  terminate-keeps :
      (interrupt : Bool) (p q : ℕ) (s : L.State)
      → Ended L p s
      → Ended L p (terminate L interrupt q s).1
  unfolding terminate
  terminate-keeps true p q s h = signal_reap-keeps sigint p q s h
  terminate-keeps false p q s h = signal_reap-keeps sigterm p q s h

  terminate_all-keeps :
      (qs : List ℕ) (p : ℕ) (s : L.State) → Ended L p s → Ended L p (terminate_all L qs s).1
  unfolding terminate_all
  terminate_all-keeps [] p s h = h
  terminate_all-keeps (q ∷ qs) p s h =
      rw (terminate_all, (terminate-Ended false q s).0)
        (terminate_all-keeps qs p (terminate L false q s).1 (terminate-keeps false p q s h))

  pub terminate_all-AllEnded :
      (ps : List ℕ) (s : L.State)
      → ((terminate_all L ps s).0 ≡ ok tt) × AllEnded L ps (terminate_all L ps s).1
  unfolding terminate_all
  terminate_all-AllEnded [] s = (refl, tt)
  terminate_all-AllEnded (p ∷ ps) s =
      let s1 = (terminate L false p s).1 in
      let (fine, over) = terminate-Ended false p s in
      let (r, rest) = terminate_all-AllEnded ps s1 in
      rw (terminate_all, fine) (r, (terminate_all-keeps ps p s1 over, rest))
