-- ===== src/Scripts/Benchmark/Publisher/Laws.antt =====
-- What the publisher of scripts/stock_benchmark.py has sent when it returns.
use mathlib.Core.List.{append_assoc, append-nil}
use rosplus.Base.{
  ℕ, suc, ◌+◌, ◌-◌, ◌≤◌, ◌<◌, ◌≡◌, refl, sym, ◌∙◌, ap, subst, String, Bool, true, false, Option,
  some, List, [], ◌∷◌, ◌++◌, length, length-append, arith, ltb, inl, inr, Bool-cases, if◌then◌else◌,
  nat_beq,
}
use rosplus.Exec.{Result, ok, raise, gets, Result-cases}
use rosplus.Exec.Errors.{Exception}
use rosplus.Exec.Task.{Task, done, fail, step}
use rosplus.Exec.Task.Returns.{bind-returns, then-returns, try_finally-closed, loop-returns}
use rosplus.Json.{Json, str}
use rosplus.Scripts.Lab.{
  Lab, Call, advertise, create_node, destroy_node, init, publish, shutdown, spin_once,
  runtime_error,
}
use rosplus.Scripts.Benchmark.{schedule, refused_fifo}
use rosplus.Scripts.Lab.Waiting.{IsTicking}
use rosplus.Scripts.Benchmark.Publisher.Ending.{IsSteady, Ends-publisher}
use rosplus.Scripts.Benchmark.Sender.{payload}
use rosplus.Scripts.Benchmark.Publisher.{
  Outlet, Sender, Options, in_world, publish_next, spin, sending, send_all, publisher_body,
  publisher, close_publisher, publisher_summary,
}

abbrev pub is_publish : Call → Bool
is_publish (publish message) = true
is_publish _ = false

-- What is on the topic: a message that was published stands at its end, and nothing else changes it.
pub record Topic (L : Lab) (U : Outlet L) : Type 0 where
  pub posted : L.State → List Json
  pub posted-publish :
      (message j : Json) (w w' : L.State)
      → L.perform (publish message) w ≡ (ok j, w')
      → posted w' ≡ posted w ++ message ∷ []
  pub posted-perform :
      (c : Call) (w : L.State) → is_publish c ≡ false → posted (L.perform c w).1 ≡ posted w
  pub posted-sleep : (n : ℕ) (w : L.State) → posted (L.sleep n w) ≡ posted w
  pub posted-set_fifo : (w : L.State) → posted (U.set_fifo w).1 ≡ posted w
  pub posted-create_timer :
      (frequency : ℕ) (w : L.State) → posted (U.create_timer frequency w).1 ≡ posted w
  pub posted-print : (j : Json) (w : L.State) → posted (U.print j w).1 ≡ posted w

-- The messages are numbered from `n` on, each with a time stamp and of the given size.
abbrev pub Numbered : ℕ → ℕ → List Json → Type 0
Numbered size n [] = Unit
Numbered size n (j ∷ js) =
    ((stamp : ℕ) × (j ≡ str (payload size n stamp))) × Numbered size (suc n) js

Numbered-append :
    (size n k stamp : ℕ) (js : List Json)
    → Numbered size n js
    → n + length js ≡ k
    → Numbered size n (js ++ str (payload size k stamp) ∷ [])
Numbered-append size n k stamp [] h is =
    ((stamp, ap (λ m. str (payload size m stamp)) (omega arith)), tt)
Numbered-append size n k stamp (j ∷ js) h is =
    (h.0, Numbered-append size (suc n) k stamp js h.1 (omega arith))

module _ (L : Lab) (U : Outlet L) (T : Topic L U) (size messages : ℕ) (start : L.State) where
  -- What the state of the loop has put on the topic since `start`.
  pub record Sent (s : Sender L) : Type 0 where
    pub sent : List Json
    pub posts : T.posted s.world ≡ T.posted start ++ sent
    pub numbered : Numbered size 0 sent
    pub counted : length sent ≡ s.count
    pub no_more : s.count ≤ messages

  publish-Sent :
      (s t : Sender L) (b : Option (Unit {0}))
      → s.count < messages
      → publish_next L U size s ≡ (ok b, t)
      → Sent s
      → Sent t
  unfolding publish_next
  publish-Sent s t b below h v =
      let text = str (payload size s.count (U.stamp s.world)) in
      elim (Result-cases (L.perform (publish text) s.world).0) [
        | inr (e, failed) ↦ absurd (ground arith)
        | inl (j, fine) ↦
            let w = (L.perform (publish text) s.world).1 in
            let went = T.posted-publish text j s.world w (λ i. (fine i, w)) in
            let is : record { world = w; count = s.count + 1 } ≡ t = ground arith in
            let one = length-append v.sent (text ∷ []) in
            subst Sent is (record {
              sent = v.sent ++ text ∷ [];
              posts =
                  went
                  ∙ ap (λ js. js ++ text ∷ []) v.posts
                  ∙ append_assoc (T.posted start) v.sent (text ∷ []);
              numbered =
                  Numbered-append size 0 s.count (U.stamp s.world) v.sent v.numbered
                    (omega (arith, v.counted));
              counted = omega (arith, v.counted, one);
              no_more = omega arith;
            })
      ]

  spin-Sent :
      (s t : Sender L) (b : Option (Unit {0}))
      → s.count < messages
      → spin L U size s ≡ (ok b, t)
      → Sent s
      → Sent t
  unfolding spin
  spin-Sent s t b below h v = elim (Result-cases (L.perform spin_once s.world).0) [
    | inr (e, failed) ↦ absurd (ground arith)
    | inl (j, fine) ↦
        let w = (L.perform spin_once s.world).1 in
        let still : Sent (record s { world = w }) = record {
          sent = v.sent;
          posts = T.posted-perform spin_once s.world refl ∙ v.posts;
          numbered = v.numbered;
          counted = v.counted;
          no_more = v.no_more;
        } in
        elim (Bool-cases (U.due w)) [
          | inr idle ↦ subst Sent (ground arith) still
          | inl due ↦ publish-Sent (record s { world = w }) t b below (ground arith) still
        ]
  ]

short-enough :
    {L : Lab} (count messages : ℕ) (text : String) (s t : Sender L)
    → (if ltb count messages then fail (runtime_error text) else done tt) s ≡ some (ok tt, t)
    → messages ≤ count
unfolding fail
short-enough count messages text s t h = ground arith

module _ (L : Lab) (U : Outlet L) {A : Type 0} where
  in_world-count :
      (f : L.State → Result A × L.State) (s t : Sender L) (a : A)
      → step (in_world L U f) s ≡ some (ok a, t)
      → t.count ≡ s.count
  unfolding step
  in_world-count f s t a h = ground arith

  if-count :
      (b : Bool) (e : Exception) (m : Task (Sender L) A) (s t : Sender L) (a : A)
      → (if b then fail e else m) s ≡ some (ok a, t)
      → (m s ≡ some (ok a, t) → t.count ≡ s.count)
      → t.count ≡ s.count
  unfolding fail
  if-count true e m s t a h kept = absurd (ground arith)
  if-count false e m s t a h kept = kept h

  gets-same : (f : Sender L → A) (s t : Sender L) (a : A) → step (gets f) s ≡ some (ok a, t) → s ≡ t
  unfolding step
  gets-same f s t a h = ground arith

module _ (L : Lab) (U : Outlet L) (T : Topic L U) where
  -- The messages that a run from `s` to `t` has put on the topic: as many as were wanted.
  pub record Published (size messages : ℕ) (s t : Sender L) : Type 0 where
    pub sent : List Json
    pub posts : T.posted t.world ≡ T.posted s.world ++ sent
    pub numbered : Numbered size 0 sent
    pub all : length sent ≡ messages

  -- The topic is the same in both states.
  abbrev Quiet : Sender L → Sender L → Type 0
  Quiet s t = T.posted t.world ≡ T.posted s.world

  in_world-Quiet :
      {A : Type 0} (f : L.State → Result A × L.State) (s t : Sender L) (a : A)
      → ((w : L.State) → T.posted (f w).1 ≡ T.posted w)
      → step (in_world L U f) s ≡ some (ok a, t)
      → Quiet s t
  unfolding step
  in_world-Quiet f s t a quiet h =
      let is : (f s.world).1 ≡ t.world = ground arith in ap T.posted (sym is) ∙ quiet s.world

  if-Quiet :
      {A : Type 0} (b : Bool) (e : Exception) (m : Task (Sender L) A) (s t : Sender L) (a : A)
      → (if b then fail e else m) s ≡ some (ok a, t)
      → (m s ≡ some (ok a, t) → Quiet s t)
      → Quiet s t
  unfolding fail
  if-Quiet true e m s t a h kept = absurd (ground arith)
  if-Quiet false e m s t a h kept = kept h

  done-Quiet : (s t : Sender L) → done tt s ≡ some (ok (tt {0}), t) → Quiet s t
  unfolding done
  done-Quiet s t h = let is : s ≡ t = ground arith in ap (λ x. T.posted x.world) (sym is)

  state-refused_fifo : (e : Exception) (w : L.State) → T.posted (refused_fifo e w).1 ≡ T.posted w
  state-refused_fifo e w = ground arith

  schedule-Quiet :
      (fifo : Bool) (w : L.State) → T.posted (schedule U.set_fifo fifo w).1 ≡ T.posted w
  unfolding schedule
  schedule-Quiet false w = refl
  schedule-Quiet true w = elim (Result-cases (U.set_fifo w).0) [
    | inl (x, fine) ↦ rw (schedule, fine) (T.posted-set_fifo w)
    | inr (e, failed) ↦
        rw (schedule, failed) (state-refused_fifo e (U.set_fifo w).1 ∙ T.posted-set_fifo w)
  ]

  close-Quiet : (u t : Sender L) → close_publisher L U u ≡ (ok tt, t) → Quiet u t
  close-Quiet u t h = elim (Result-cases (L.perform destroy_node u.world).0) [
    | inr (e, failed) ↦ absurd (ground arith)
    | inl (j, fine) ↦
        let w = (L.perform destroy_node u.world).1 in
        elim (Result-cases (L.perform shutdown w).0) [
          | inr (e, failed) ↦ absurd (ground arith)
          | inl (k, over) ↦
              let is : (L.perform shutdown w).1 ≡ t.world = ground arith in
              ap T.posted (sym is)
              ∙ T.posted-perform shutdown w refl
              ∙ T.posted-perform destroy_node u.world refl
        ]
  ]

  -- A run between two that leave the topic.
  between :
      {size messages : ℕ} (s s1 t1 t : Sender L)
      → Quiet s s1
      → Quiet t1 t
      → Published size messages s1 t1
      → Published size messages s t
  between s s1 t1 t before after p = record {
    sent = p.sent;
    posts = after ∙ p.posts ∙ ap (λ js. js ++ p.sent) before;
    numbered = p.numbered;
    all = p.all;
  }

  send_all-Published :
      (fuel : ℕ) (o : Options) (started : ℕ) (s t : Sender L)
      → send_all L U fuel o started s ≡ some (ok tt, t)
      → s.count ≡ 0
      → Published o.size o.messages s t
  unfolding send_all step
  send_all-Published fuel o started s t h none_yet =
      let (_, s1, timed, h1) = then-returns _ _ s h in
      let (a, s2, looped, h2) = then-returns _ _ s1 h1 in
      let (v, s3, got, h3) = bind-returns _ _ s2 h2 in
      let (_, s4, printed, h4) = then-returns _ _ s3 h3 in
      let empty : s1.count ≡ 0 =
        if-count L U (nat_beq o.frequency 0) _ _ s s1 _ timed
          (in_world-count L U (U.create_timer o.frequency) s s1 _)
        ∙ none_yet in
      let begun : Sent L U T o.size o.messages s1.world s1 = record {
        sent = [];
        posts = sym (append-nil (T.posted s1.world));
        numbered = tt;
        counted = omega (arith, empty);
        no_more = omega (arith, empty);
      } in
      let kept =
        loop-returns (Sent L U T o.size o.messages s1.world) (sending L U o (started + o.limit))
          (spin L U o.size)
          (λ x y b on e p. spin-Sent L U T o.size o.messages s1.world x y b (ground arith) e p) fuel
          s1 a s2 looped begun in
      let is : s2 ≡ v = ground arith in
      let same : s2 ≡ s3 = ground arith in
      let enough = short-enough v.count o.messages _ s4 t h4 in
      let report = publisher_summary v.count (L.clock v.world - started) o.frequency in
      let shown =
        in_world-Quiet (U.print report) s3 s4 _ (T.posted-print report) printed
        ∙ ap (λ x. T.posted x.world) (sym same) in
      let over = if-Quiet (ltb v.count o.messages) _ _ s4 t _ h4 (done-Quiet s4 t) in
      let timer =
        if-Quiet (nat_beq o.frequency 0) _ _ s s1 _ timed (
          in_world-Quiet (U.create_timer o.frequency) s s1 _ (T.posted-create_timer o.frequency)) in
      between s s1 s2 t timer (over ∙ shown) (record {
        sent = kept.sent;
        posts = kept.posts;
        numbered = kept.numbered;
        all = omega (arith, kept.counted, kept.no_more, enough, ap (λ (x : Sender L). x.count) is);
      })

  body-Published :
      (fuel : ℕ) (o : Options) (s t : Sender L)
      → publisher_body L U fuel o s ≡ some (ok tt, t)
      → s.count ≡ 0
      → Published o.size o.messages s t
  unfolding publisher_body
  body-Published fuel o s t h empty =
      let (_, s1, made, h1) = then-returns _ _ s h in
      let (_, s2, slept, h2) = then-returns _ _ s1 h1 in
      let (started, s3, told, h3) = bind-returns _ _ s2 h2 in
      let same = gets-same L U _ s2 s3 started told in
      let quiet =
        ap (λ x. T.posted x.world) (sym same)
        ∙ in_world-Quiet _ s1 s2 _ (T.posted-sleep 2_000_000) slept
        ∙ in_world-Quiet _ s s1 _ (λ w. T.posted-perform (advertise "/chatter") w refl) made in
      between s s3 t t quiet refl (
        send_all-Published fuel o started s3 t h3 (
          sym (ap (λ (x : Sender L). x.count) same)
          ∙ in_world-count L U _ s1 s2 _ slept
          ∙ in_world-count L U _ s s1 _ made
          ∙ empty))

  publisher-Published :
      (fuel : ℕ) (o : Options) (fifo : Bool) (s : Sender L) {t : Sender L}
      → s.count ≡ 0
      → publisher L U fuel o fifo s ≡ some (ok tt, t)
      → Published o.size o.messages s t
  unfolding publisher
  publisher-Published fuel o fifo s {t} empty h =
      let (_, s0, scheduled, h0) = then-returns _ _ s h in
      let (_, s1, begun, h1) = then-returns _ _ s0 h0 in
      let (_, s2, made, h2) = then-returns _ _ s1 h1 in
      let (s3, h3, closing) = try_finally-closed _ _ s2 h2 in
      let quiet =
        in_world-Quiet _ s1 s2 _ (λ w. T.posted-perform (create_node "stock_dds_publish") w refl)
          made
        ∙ in_world-Quiet _ s0 s1 _ (λ w. T.posted-perform init w refl) begun
        ∙ in_world-Quiet _ s s0 _ (schedule-Quiet fifo) scheduled in
      between s s2 s3 t quiet (close-Quiet s3 t closing) (
        body-Published fuel o s2 s3 h3 (
          in_world-count L U _ s1 s2 _ made
          ∙ in_world-count L U _ s0 s1 _ begun
          ∙ in_world-count L U _ s s0 _ scheduled
          ∙ empty))

  -- What a run of the publisher came to.
  abbrev pub Outcome : Options → Sender L → Result (Unit {0}) × Sender L → Type 0
  Outcome o s (ok _, t) = Published o.size o.messages s t
  Outcome o s (raise e, t) = Unit

  -- Where time passes and making the timer does not turn the clock back, and with more fuel than
  -- there are microseconds in the limit, a publisher that has counted nothing yet comes to its end,
  -- returning or raising. If it returns, what the whole run has put on the topic, from its first
  -- statement to its last, is as many messages as were wanted: they are numbered from 0, one after the
  -- other, each with its time stamp and padded to the size.
  pub publisher-Outcome :
      (ticking : IsTicking L) (steady : IsSteady L U) (fuel : ℕ) (o : Options) (fifo : Bool)
      (s : Sender L)
      → o.limit < fuel
      → s.count ≡ 0
      → (r : Result (Unit {0}) × Sender L) × (publisher L U fuel o fifo s ≡ some r) × Outcome o s r
  publisher-Outcome ticking steady fuel o fifo s enough empty =
      let ((r, t), e) = (Ends-publisher L U ticking steady fuel o fifo enough).at s in
      ((r, t), e, go r t e)
    where
      go :
          (r : Result (Unit {0})) (t : Sender L)
          → publisher L U fuel o fifo s ≡ some (r, t)
          → Outcome o s (r, t)
      go (ok _) t e = publisher-Published fuel o fifo s empty e
      go (raise x) t e = tt
