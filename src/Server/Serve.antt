-- ===== src/Server/Serve.antt =====
-- `serve` of src/rosplus/server.py: what it makes of its arguments and of the environment, and what
-- happens until the keyboard interrupt, one event after the other.
pub mod Laws
use rosplus.Base.{ℕ, String, Option, none, some, List, [], ◌∷◌, ◌==◌, if◌then◌else◌}
use rosplus.Exec.{Result, ok, raise}
use rosplus.Models.{FilePath}
use rosplus.Disk.{Disk}
use rosplus.Safety.Gpio.{Entry}
use rosplus.Server.{Application}
use rosplus.Server.Request.{Request, Response}
use rosplus.Server.Dispatch.{World, dispatch}
use rosplus.Server.Lifecycle.{new_application, beat, close}
use rosplus.Server.Heartbeats.{check}

-- `ROSPLUS_WORKSPACE_ROOT` and `ROSPLUS_API_TOKEN`, if they are set, and the arguments.
pub record Settings : Type 0 where
  pub root : Option FilePath
  pub root_variable : Option FilePath
  pub token : Option String
  pub token_variable : Option String

-- `os.environ.get(name, default)`
abbrev environ : {A : Type 0} → Option A → A → A
environ (some a) default = a
environ none default = default

-- `root or Path(…)`
unfoldable pub root_of : Settings → FilePath
root_of st = elim st.root [
  | some root ↦ root
  | none ↦ environ st.root_variable (".rosplus-workspaces" ∷ [])
]

-- `token or …`; an empty text counts as no token
unfoldable pub token_of : Settings → String
token_of st =
    let other = environ st.token_variable "dev-token" in
    elim st.token [ some token ↦ if token == "" then other else token | none ↦ other ]

-- A request that is handled, or a round of one of the two threads.
pub data Event : Type 0 where
  asked : World → Request → Event
  heartbeat_round : ℕ → Event
  watch_round : ℕ → Event

module _ (D : Disk) where
  unfoldable pub serve_forever : List Event → Application D → List Response × Application D
  serve_forever [] app = ([], app)
  serve_forever (asked world r ∷ events) app =
      let (answer, app1) = dispatch D world r app in
      let (answers, app2) = serve_forever events app1 in (answer ∷ answers, app2)
  serve_forever (heartbeat_round now ∷ events) app = serve_forever events (beat D now app)
  serve_forever (watch_round now ∷ events) app = serve_forever events (check D now app)

  -- What the requests came to, or the exception, and the application as it is left, if it was made.
  abbrev pub Outcome : Type 0
  Outcome = Result (List Response) × Option (Application D)

  -- The rest of `serve`, once the application is made; `bound` is what making the server comes to.
  unfoldable pub run_server : Result (Unit {0}) → List Event → ℕ → Application D → Outcome
  unfolding serve_forever close
  run_server (raise e) events end app = (raise e, some app)
  run_server (ok _) events end app =
      let (answers, app') = serve_forever events app in (ok answers, some (close D end app'))

  unfoldable pub serve :
      Settings → Result (Unit {0}) → List Entry → List Event → ℕ → ℕ → D.State → Outcome
  unfolding root_of token_of new_application run_server
  serve st bound lines events now end d =
      elim (new_application D (root_of st) (token_of st) lines now d).0 [
        | raise e ↦ (raise e, none)
        | ok app ↦ run_server bound events end app
      ]
