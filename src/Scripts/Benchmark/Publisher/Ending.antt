-- ===== src/Scripts/Benchmark/Publisher/Ending.antt =====
-- The end of the publisher of scripts/stock_benchmark.py.
use rosplus.Base.{
  ℕ, ◌-◌, ◌≤◌, ◌<◌, ◌≡◌, subst, Bool, true, Option, none, some, arith, ltb, ltb→lt, inl, inr,
  Bool-cases, nat_beq,
}
use rosplus.Exec.{Result, ok, Result-cases}
use rosplus.Exec.Errors.{other_error}
use rosplus.Exec.Task.{loop}
use rosplus.Exec.Task.Ends.{
  Ends, Ends-done, Ends-fail, Ends-if, Ends-try_finally, first, first_bind, loop-Ends, Ends-gets,
  after_step, then_from, fail_first,
}
use rosplus.Json.{str}
use rosplus.Scripts.Lab.{Lab, publish, spin_once}
use rosplus.Scripts.Lab.Waiting.{IsTicking}
use rosplus.Scripts.Benchmark.Sender.{payload}
use rosplus.Scripts.Benchmark.Publisher.{
  Outlet, Sender, Options, publish_next, spin, sending, send_all, publisher_body, publisher,
}

-- Making the timer does not turn the clock back.
abbrev pub IsSteady : (L : Lab) → Outlet L → Type 0
IsSteady L U = (frequency : ℕ) (w : L.State) → L.clock w ≤ L.clock (U.create_timer frequency w).1

module _ (L : Lab) (U : Outlet L) (T : IsTicking L) where
  spin-later :
      (size : ℕ) (s t : Sender L)
      → spin L U size s ≡ (ok none, t)
      → L.clock s.world < L.clock t.world
  unfolding spin publish_next
  spin-later size s t h =
      let w = (L.perform spin_once s.world).1 in
      let text = str (payload size s.count (U.stamp w)) in
      let ticked = T.tick-spin s.world in
      let more = T.tick-perform (publish text) w in
      elim (Result-cases (L.perform spin_once s.world).0) [
        | inr (e, failed) ↦ absurd (ground arith)
        | inl (j, fine) ↦ elim (Bool-cases (U.due w)) [
          | inr idle ↦
              let is : w ≡ t.world = ground arith in
              subst (λ v. L.clock s.world < L.clock v) is ticked
          | inl due ↦ elim (Result-cases (L.perform (publish text) w).0) [
            | inr (e, failed) ↦ absurd (ground arith)
            | inl (k, sent) ↦
                let is : (L.perform (publish text) w).1 ≡ t.world = ground arith in
                subst (λ v. L.clock s.world < L.clock v) is (omega arith)
          ]
        ]
      ]

  sending-Ends :
      (fuel : ℕ) (o : Options) (deadline : ℕ) (s : Sender L)
      → deadline - L.clock s.world < fuel
      → (r : Result (Option (Unit {0})) × Sender L) × (loop fuel
            (sending L U o deadline)
            (spin L U o.size)
            s
          ≡ some r)
  sending-Ends fuel o deadline s enough =
      loop-Ends (λ t. deadline - L.clock t.world) (sending L U o deadline) (spin L U o.size)
        (λ t t' on e.
          let passed = spin-later o.size t t' e in
          let early : ltb (L.clock t.world) deadline ≡ true = ground arith in
          let before = ltb→lt (L.clock t.world) deadline early in omega arith)
        fuel s enough

  send_all-ends :
      (steady : IsSteady L U) (fuel : ℕ) (o : Options) (s : Sender L)
      → o.limit < fuel
      → (r : Result (Unit {0}) × Sender L) × (send_all L U fuel o (L.clock s.world) s ≡ some r)
  unfolding send_all
  send_all-ends steady fuel o s enough = elim (Bool-cases (nat_beq o.frequency 0)) [
    | inl zero_hertz ↦
        rw (send_all, zero_hertz) (fail_first _ (other_error "ZeroDivisionError") _ s)
    | inr timed ↦
        rw (send_all, timed)
          (after_step _ _ s (
            then_from _ _ _ (sending-Ends fuel o _ _ (omega (arith, steady o.frequency s.world))) (
              first_bind _ (λ t.
                first _ (Ends-if (ltb t.count o.messages) _ _ (Ends-fail _) (Ends-done tt))))))
  ]

  pub Ends-publisher :
      (steady : IsSteady L U) (fuel : ℕ) (o : Options) (fifo : Bool)
      → o.limit < fuel
      → Ends (publisher L U fuel o fifo)
  unfolding publisher publisher_body
  Ends-publisher steady fuel o fifo enough = first _ (
      first _ (
        first _ (
          Ends-try_finally _ _
            (first _ (first _ (Ends-gets _ _ (λ s. send_all-ends steady fuel o s enough)))))))
