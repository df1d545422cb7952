-- ===== src/Process/Build/Race/Laws.antt =====
-- The lock of a workspace under several builds.
use rosplus.Base.{
  ℕ, zero, suc, ◌≡◌, refl, sym, ◌∙◌, ◌⊎◌, inl, inr, true, false, List, [], ◌∷◌, ◌++◌, arith,
  Bool-cases,
}
use rosplus.Models.{Workspace}
use rosplus.Process.Build.{lock}
use rosplus.Process.Build.Race.{
  Builder, asking, free_seen, inside, Moves, see_free, see_locked, take_lock, write_verdict, leave,
  Step, this, that, Reach, here, next, any_inside, many,
}

-- The lock is only set while a build runs.
abbrev Held : Workspace → List Builder → Type 0
Held w bs = w.build_lock ≡ true → any_inside bs ≡ true

-- What a step does to the lock and to the builds that run.
abbrev Change : Workspace → List Builder → Workspace → List Builder → Type 0
Change w bs v cs =
    (v.build_lock ≡ false)
    ⊎ (any_inside cs ≡ true)
    ⊎ ((v.build_lock ≡ w.build_lock) × (any_inside cs ≡ any_inside bs))

Moves-Change :
    {w v : Workspace} {b c : Builder} (bs : List Builder)
    → Moves w b v c
    → Change w (b ∷ bs) v (c ∷ bs)
Moves-Change bs (see_free w h) = inr (inr (refl, refl))
Moves-Change bs (see_locked w h) = inr (inr (refl, refl))
Moves-Change bs (take_lock w) = inr (inl refl)
Moves-Change bs (write_verdict w utc t) = inr (inl refl)
Moves-Change bs (leave w) = inl refl

Step-Change : {w v : Workspace} {bs cs : List Builder} → Step w bs v cs → Change w bs v cs
Step-Change (this bs m) = Moves-Change bs m
Step-Change (that b s) = elim (Step-Change s) [
  | inl free ↦ inl free
  | inr (inl runs) ↦ inr (inl ground arith)
  | inr (inr (same, alike)) ↦ inr (inr (same, rw alike refl))
]

Step-Held : {w v : Workspace} {bs cs : List Builder} → Step w bs v cs → Held w bs → Held v cs
Step-Held s i = elim (Step-Change s) [
  | inl free ↦ λ h. ground arith
  | inr (inl runs) ↦ λ h. runs
  | inr (inr (same, alike)) ↦ λ h. alike ∙ i (sym same ∙ h)
]

Reach-Held :
    {w : Workspace} {bs : List Builder} {v : Workspace} {cs : List Builder}
    → Reach w bs v cs
    → Held w bs
    → Held v cs
Reach-Held here i = i
Reach-Held (next r s) i = Step-Held s (Reach-Held r i)

Reach-trans :
    {w : Workspace} {bs : List Builder} {v : Workspace} {cs : List Builder} {u : Workspace}
    {ds : List Builder}
    → Reach w bs v cs
    → Reach v cs u ds
    → Reach w bs u ds
Reach-trans r here = r
Reach-trans r (next q s) = next (Reach-trans r q) s

-- What some calls do, they do beside others.
Reach-beside :
    (ds : List Builder) {w : Workspace} {bs : List Builder} {v : Workspace} {cs : List Builder}
    → Reach w bs v cs
    → Reach w (ds ++ bs) v (ds ++ cs)
Reach-beside ds here = here
Reach-beside ds (next r s) = next (Reach-beside ds r) (Step-beside ds s)
  where
    Step-beside :
        {w v : Workspace} {bs cs : List Builder} (ds : List Builder)
        → Step w bs v cs
        → Step w (ds ++ bs) v (ds ++ cs)
    Step-beside [] s = s
    Step-beside (d ∷ ds) s = that d (Step-beside ds s)

-- Each call sees the lock free before one of them takes it.
all_see :
    (n : ℕ) (w : Workspace) → w.build_lock ≡ false → Reach w (many n asking) w (many n free_seen)
all_see zero w free = here
all_see (suc n) w free =
    Reach-trans (next here (this (many n asking) (see_free w free)))
      (Reach-beside (free_seen ∷ []) (all_see n w free))

all_take : (n : ℕ) (w : Workspace) → (v : Workspace) × Reach w (many n free_seen) v (many n inside)
all_take zero w = (w, here)
all_take (suc n) w =
    let (v, r) = all_take n (lock w) in
    (
      v,
      Reach-trans (next here (this (many n free_seen) (take_lock w)))
          (Reach-beside (inside ∷ []) r),
    )

-- Some calls ask for a build of a workspace whose lock is free. However their statements are mixed,
-- when none of them runs the lock is free again; and when any number of further calls then ask, their
-- statements can be mixed so that all of these run at once.
pub builders-Race :
    (n m : ℕ) (w : Workspace) {v : Workspace} {cs : List Builder}
    → w.build_lock ≡ false
    → Reach w (many n asking) v cs
    → any_inside cs ≡ false
    → (v.build_lock ≡ false)
      × ((u : Workspace) × Reach v (cs ++ many m asking) u (cs ++ many m inside))
builders-Race n m w {v} {cs} free r none_inside =
    let held = Reach-Held r (λ h. absurd (ground arith)) in
    let unlocked : v.build_lock ≡ false = elim (Bool-cases v.build_lock) [
      | inl locked ↦ absurd (ground (arith, held locked))
      | inr unlocked ↦ unlocked
    ] in
    let (u, taken) = all_take m v in
    (unlocked, (u, Reach-beside cs (Reach-trans (all_see m v unlocked) taken)))
