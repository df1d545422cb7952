-- ===== src/Safety/Gpio.antt =====
-- `GpioSimulator` of src/rosplus/safety.py. The log file is the list of its lines.
use rosplus.Base.{ℕ, Bool, true, false, ◌||◌, List, [], ◌∷◌, ◌++◌, if◌then◌else◌}

-- The two texts that `state` takes.
pub data Level : Type 0 where
  low high : Level

-- The reasons that the program gives.
pub data Reason : Type 0 where
  init armed e_stop disarmed : Reason

pub record Entry : Type 0 where
  pub timestamp_ns : ℕ
  pub state : Level
  pub reason : Reason

pub record Gpio : Type 0 where
  pub state : Level
  pub log : List Entry

abbrev level_ne : Level → Level → Bool
level_ne low low = false
level_ne high high = false
level_ne _ _ = true

abbrev is_e_stop : Reason → Bool
is_e_stop e_stop = true
is_e_stop _ = false

-- `_write`
write : Reason → ℕ → Gpio → Gpio
write reason now g = record g {
  log = g.log ++ record { timestamp_ns = now; state = g.state; reason = reason } ∷ [];
}

-- `__init__`, over the lines that the file already holds
unfoldable pub new : List Entry → ℕ → Gpio
unfolding write
new lines now = write init now (record { state = low; log = lines })

-- `set`
unfoldable pub set : Level → Reason → ℕ → Gpio → Gpio
unfolding write
set state reason now g =
    if level_ne state g.state || is_e_stop reason
    then write reason now (record g { state = state })
    else g
