-- ===== src/Process/Build/Race.antt =====
-- `ProcessManager.build` of src/rosplus/process.py under the threads of the server: several calls for
-- one workspace, which they share. The test of `build_lock` is one step and taking the lock is
-- another, since no lock is held from one to the other. The assignments of `build_lock` and `status`
-- that take it are one step, and so are the status and the line of the log that follow the files; a
-- call that raises leaves without them.
pub mod Laws
use rosplus.Base.{ℕ, zero, suc, ◌≡◌, String, Bool, true, false, List, [], ◌∷◌, if◌then◌else◌}
use rosplus.Models.{Workspace}
use rosplus.Process.Build.{Tally, lock, unlock, settle}

-- Where a call of `build` stands.
pub data Builder : Type 0 where
  asking free_seen inside left refused : Builder

-- One statement of one call.
pub data Moves : Workspace → Builder → Workspace → Builder → Type 0 where
  see_free : (w : Workspace) → w.build_lock ≡ false → Moves w asking w free_seen
  see_locked : (w : Workspace) → w.build_lock ≡ true → Moves w asking w refused
  take_lock : (w : Workspace) → Moves w free_seen (lock w) inside
  write_verdict :
      (w : Workspace) (utc : String) (t : Tally) → Moves w inside (settle utc t w) inside
  leave : (w : Workspace) → Moves w inside (unlock w) left

-- One statement of one of the calls.
pub data Step : Workspace → List Builder → Workspace → List Builder → Type 0 where
  this :
      {w v : Workspace} {b c : Builder} (bs : List Builder)
      → Moves w b v c
      → Step w (b ∷ bs) v (c ∷ bs)
  that :
      {w v : Workspace} {bs cs : List Builder} (b : Builder)
      → Step w bs v cs
      → Step w (b ∷ bs) v (b ∷ cs)

pub data Reach (w : Workspace) (bs : List Builder) : Workspace → List Builder → Type 0 where
  here : Reach w bs w bs
  next :
      {v u : Workspace} {cs ds : List Builder} → Reach w bs v cs → Step v cs u ds → Reach w bs u ds

abbrev pub is_inside : Builder → Bool
is_inside inside = true
is_inside _ = false

-- Whether a build runs.
abbrev pub any_inside : List Builder → Bool
any_inside [] = false
any_inside (b ∷ bs) = if is_inside b then true else any_inside bs

abbrev pub many : ℕ → Builder → List Builder
many zero b = []
many (suc n) b = b ∷ many n b
