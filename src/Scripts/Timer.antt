-- ===== src/Scripts/Timer.antt =====
-- `parse` in `timer_behavior_matches` of scripts/compare_migration_validation.py, on messages that are
-- texts. What `int` makes of a text is an argument; `none` is its `ValueError`.
pub mod Laws
use Prim.Native.Char.{code}
use rosplus.Base.{
  ℕ, zero, suc, String, Bool, true, false, not, ◌&&◌, ◌||◌, Option, none, some, List, [], ◌∷◌, map,
  any, length, nat_beq, ◌==◌, if◌then◌else◌,
}
use rosplus.Base.Int.{ℤ, ◌-ℤ◌, is_pos}

-- `message.rpartition(":")`, where `none` says that there is no colon
unfoldable pub rpartition : String → Option (String × String)
rpartition String.[] = none
rpartition (String.◌∷◌ c s) = elim (rpartition s) [
  | some (prefix, counter) ↦ some (String.◌∷◌ c prefix, counter)
  | none ↦ if nat_beq (code c) b':' then some ("", s) else none
]

module _ (int : String → Option ℤ) where
  abbrev pub numbered : String × String → Option (String × ℤ)
  numbered (prefix, counter) = elim (int counter) [ some n ↦ some (prefix, n) | none ↦ none ]

  abbrev pub parse_message : String → Option (String × ℤ)
  parse_message message = elim (rpartition message) [ some p ↦ numbered p | none ↦ none ]

  abbrev pub prepend : Option (String × ℤ) → Option (List (String × ℤ)) → Option (List (String × ℤ))
  prepend (some p) (some ps) = some (p ∷ ps)
  prepend _ _ = none

  -- The loop over the messages.
  unfoldable pub parse_messages : List String → Option (List (String × ℤ))
  unfolding rpartition
  parse_messages [] = some []
  parse_messages (message ∷ messages) = prepend (parse_message message) (parse_messages messages)

  abbrev pub offsets : ℤ → List (String × ℤ) → List ℤ
  offsets start [] = []
  offsets start ((_, counter) ∷ ps) = (counter -ℤ start) ∷ offsets start ps

  abbrev pub is_foreign : String × ℤ → Bool
  is_foreign p = not (p.0 == "validated")

  -- The rest of `parse`, once the messages are split.
  unfoldable pub from_start : List (String × ℤ) → Option (List ℤ)
  from_start [] = none
  from_start ((prefix, start) ∷ ps) =
      if not (nat_beq (length ps) 4) || any is_foreign ((prefix, start) ∷ ps)
      then none
      else some (offsets start ((prefix, start) ∷ ps))

  unfoldable pub parse : List String → Option (List ℤ)
  unfolding parse_messages from_start
  parse messages = elim (parse_messages messages) [ some ps ↦ from_start ps | none ↦ none ]

  -- Whether the list is `n`, `n + 1`, and so on, for as many as given.
  abbrev pub counts_up : ℕ → ℕ → List ℤ → Bool
  counts_up zero n [] = true
  counts_up zero n (z ∷ zs) = false
  counts_up (suc k) n [] = false
  counts_up (suc k) n (z ∷ zs) = is_pos n z && counts_up k (suc n) zs

  -- `parsed == [0, 1, 2, 3, 4]`
  abbrev pub is_expected : Option (List ℤ) → Bool
  is_expected none = false
  is_expected (some zs) = counts_up 5 0 zs
