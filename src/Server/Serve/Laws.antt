-- ===== src/Server/Serve/Laws.antt =====
-- How `serve` leaves the pin, the monitor and the registry.
use rosplus.Base.{
  ℕ, suc, ◌≡◌, refl, ap, length, false, Option, some, List, [], ◌∷◌, arith, inl, inr,
}
use rosplus.Exec.{Result, ok, raise, Result-cases}
use rosplus.Disk.{Disk}
use rosplus.Safety.Gpio.{Entry, low, set}
use rosplus.Safety.Monitor
use rosplus.Workspace.{new_manager}
use rosplus.Workspace.Registry.{IsRegistered}
use rosplus.Server.{Application}
use rosplus.Base.Dict
use rosplus.Server.Request.{Response}
use rosplus.Server.Dispatch.{dispatch}
use rosplus.Server.Dispatch.Registered.{dispatch-IsRegistered}
use rosplus.Server.Lifecycle.{new_application, beat, close}
use rosplus.Server.Heartbeats.{check, Armed, rounds, rounds-Armed}
use rosplus.Server.Serve.{
  Settings, root_of, token_of, Event, asked, heartbeat_round, watch_round, serve_forever,
  run_server, serve,
}

module _ (D : Disk) where
  serve_forever-IsRegistered :
      (events : List Event) (app : Application D)
      → IsRegistered app.sup.manager
      → IsRegistered (serve_forever D events app).1.sup.manager
  unfolding serve_forever beat check
  serve_forever-IsRegistered [] app h = h
  serve_forever-IsRegistered (asked world r ∷ events) app h =
      serve_forever-IsRegistered events (dispatch D world r app).1
        (dispatch-IsRegistered D world r app h)
  serve_forever-IsRegistered (heartbeat_round now ∷ events) app h =
      serve_forever-IsRegistered events (beat D now app) h
  serve_forever-IsRegistered (watch_round now ∷ events) app h =
      serve_forever-IsRegistered events (check D now app) h

  -- The application was shut down: its pin is low, its monitor does not run, and its registry is in
  -- order.
  pub record Closed (app : Application D) : Type 0 where
    pub pin : app.safety.gpio.state ≡ low
    pub halted : app.safety.running ≡ false
    pub registered : IsRegistered app.sup.manager

  close-Closed :
      (now : ℕ) (app : Application D) → IsRegistered app.sup.manager → Closed (close D now app)
  unfolding close Monitor.stop set
  close-Closed now app h = record { pin = ground arith; halted = refl; registered = h }

  -- The registry of a new application is empty.
  new_application-items :
      (st : Settings) (lines : List Entry) (now : ℕ) (d : D.State) {app : Application D}
      {d' : D.State}
      → new_application D (root_of st) (token_of st) lines now d ≡ (ok app, d')
      → app.sup.manager.items ≡ []
  unfolding new_application new_manager Monitor.new
  new_application-items st lines now d made = elim (Result-cases (D.resolve d (root_of st))) [
    | inr (e, refused) ↦ absurd (ground arith)
    | inl (path, found) ↦ elim (Result-cases (D.make_dirs path d).0) [
      | inr (e, refused) ↦ absurd (ground arith)
      | inl (_, there) ↦ elim (Result-cases (D.make_dirs (root_of st) (D.make_dirs path d).1).0) [
        | inr (e, refused) ↦ absurd (ground arith)
        | inl (_, fine) ↦ ground arith
      ]
    ]
  ]

  empty-IsRegistered :
      (app : Application D) → app.sup.manager.items ≡ [] → IsRegistered app.sup.manager
  unfolding Dict.get
  empty-IsRegistered app e = record {
    keyed = λ i w found. absurd (ground arith);
    unique = λ i j v w found other same. absurd (ground arith);
  }

  -- The number of the requests.
  abbrev pub requests : List Event → ℕ
  requests [] = 0
  requests (asked world r ∷ events) = suc (requests events)
  requests (heartbeat_round now ∷ events) = requests events
  requests (watch_round now ∷ events) = requests events

  length-serve_forever :
      (events : List Event) (app : Application D)
      → length (serve_forever D events app).0 ≡ requests events
  unfolding serve_forever
  length-serve_forever [] app = refl
  length-serve_forever (asked world r ∷ events) app =
      ap suc (length-serve_forever events (dispatch D world r app).1)
  length-serve_forever (heartbeat_round now ∷ events) app =
      length-serve_forever events (beat D now app)
  length-serve_forever (watch_round now ∷ events) app =
      length-serve_forever events (check D now app)

  -- How `serve` ends, by what making the server came to.
  abbrev pub Ended :
      List Event → Result (Unit {0}) → Result (List Response) × Option (Application D) → Type 0
  Ended events (ok _) r =
      (answers : List Response) × (app : Application D) × (r ≡ (ok answers, some app))
      × (length answers ≡ requests events)
      × Closed app
  Ended events (raise e) r = (app : Application D) × (r ≡ (raise e, some app)) × Armed app.safety

  run_server-Ended :
      (bound : Result (Unit {0})) (events : List Event) (end : ℕ) (app : Application D)
      → IsRegistered app.sup.manager
      → Armed app.safety
      → Ended events bound (run_server D bound events end app)
  unfolding run_server
  run_server-Ended (ok _) events end app h armed =
      let (answers, app') = serve_forever D events app in
      (
        answers,
        close D end app',
        refl,
        length-serve_forever events app,
        close-Closed end app' (serve_forever-IsRegistered events app h),
      )
  run_server-Ended (raise e) events end app h armed = (app, refl, armed)

  -- Once the application is made, `serve` ends in one of two ways. If the server can be made, each
  -- request comes to one outcome, an answer or a connection that ends without one, and after the
  -- interrupt the pin is low, the monitor does not run, and the workspaces of the registry stand under
  -- their identifiers and have distinct names. If it cannot, the exception leaves the application as
  -- it was made: the pin is high, and the monitor runs.
  pub serve-Ended :
      (st : Settings) (bound : Result (Unit {0})) (lines : List Entry) (events : List Event)
      (now end : ℕ) (d : D.State) {app : Application D} {d' : D.State}
      → new_application D (root_of st) (token_of st) lines now d ≡ (ok app, d')
      → Ended events bound (serve D st bound lines events now end d)
  unfolding serve rounds
  serve-Ended st bound lines events now end d {app} {d'} made =
      let r = new_application D (root_of st) (token_of st) lines now d in
      let good : r.0 ≡ ok app = λ i. (made i).0 in
      let empty = empty-IsRegistered app (new_application-items st lines now d made) in
      rw (serve, good)
        (run_server-Ended bound events end app empty
          (rounds-Armed D (root_of st) (token_of st) lines now d now now [] made (omega arith) tt))
