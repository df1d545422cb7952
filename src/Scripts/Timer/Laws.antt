-- ===== src/Scripts/Timer/Laws.antt =====
-- When the counters of a timer are found to go up by one.
use rosplus.Base.{
  String, ◌≡◌, sym, ◌∙◌, Bool, true, false, ◌↔◌, Option, none, some, List, [], ◌∷◌, arith, inl, inr,
  Option-cases, eq_iff, ◌&&◌,
}
use rosplus.Base.Int.{ℤ, shift, is_pos-sub, is_pos-shift, is_pos-sub_self}
use rosplus.Scripts.Timer.{parse_messages, from_start, parse, is_expected}

abbrev pub five : ℤ → List (String × ℤ)
five start =
    ("validated", start)
    ∷ ("validated", shift start 1)
    ∷ ("validated", shift start 2)
    ∷ ("validated", shift start 3)
    ∷ ("validated", shift start 4)
    ∷ []

all_true :
    {a b c d e : Bool}
    → a ≡ true
    → b ≡ true
    → c ≡ true
    → d ≡ true
    → e ≡ true
    → (a && (b && (c && (d && (e && true))))) ≡ true
all_true h i j k l = ground arith

module _ (int : String → Option ℤ) where
  -- Five messages, "validated" with consecutive counters.
  abbrev pub Consecutive : List String → Type 0
  Consecutive messages = (start : ℤ) × (parse_messages int messages ≡ some (five start))

  from_start-five : (start : ℤ) → is_expected int (from_start int (five start)) ≡ true
  unfolding from_start
  from_start-five start =
      all_true (is_pos-sub_self start) (is_pos-shift start 1) (is_pos-shift start 2)
        (is_pos-shift start 3) (is_pos-shift start 4)

  five-from_start :
      (ps : List (String × ℤ))
      → is_expected int (from_start int ps) ≡ true
      → (start : ℤ) × (ps ≡ five start)
  unfolding from_start
  five-from_start [] h = cc
  five-from_start (a ∷ []) h = absurd (ground arith)
  five-from_start (a ∷ b ∷ []) h = absurd (ground arith)
  five-from_start (a ∷ b ∷ c ∷ []) h = absurd (ground arith)
  five-from_start (a ∷ b ∷ c ∷ d ∷ []) h = absurd (ground arith)
  five-from_start (a ∷ b ∷ c ∷ d ∷ e ∷ f ∷ ps) h = absurd (ground arith)
  five-from_start ((pa, a) ∷ (pb, b) ∷ (pc, c) ∷ (pd, d) ∷ (pe, e) ∷ []) h = (
    a,
    ground (
      arith,
      eq_iff pa "validated",
      eq_iff pb "validated",
      eq_iff pc "validated",
      eq_iff pd "validated",
      eq_iff pe "validated",
      is_pos-sub b a 1,
      is_pos-sub c a 2,
      is_pos-sub d a 3,
      is_pos-sub e a 4,
    ),
  )

  pub parse-some :
      (messages : List String) {ps : List (String × ℤ)}
      → parse_messages int messages ≡ some ps
      → is_expected int (parse int messages) ≡ is_expected int (from_start int ps)
  unfolding parse
  parse-some messages good = ground arith

  expected-none :
      (messages : List String)
      → parse_messages int messages ≡ none
      → is_expected int (parse int messages) ≡ false
  unfolding parse
  expected-none messages bad = ground arith

  pub expected_iff :
      (messages : List String)
      → (is_expected int (parse int messages) ≡ true) ↔ Consecutive messages
  expected_iff messages = elim (Option-cases (parse_messages int messages)) [
    | inl bad ↦
        let refused = expected-none messages bad in
        (λ h. absurd (ground arith), λ c. absurd (ground (arith, c.1)))
    | inr (ps, good) ↦ (
      λ h.
          let (start, e) = five-from_start ps (sym (parse-some messages good) ∙ h) in
          (start, rw e at good),
      λ c. parse-some messages c.1 ∙ from_start-five c.0,
    )
  ]
