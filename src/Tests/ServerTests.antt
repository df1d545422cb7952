-- ===== src/Tests/ServerTests.antt =====
-- Requests to the application over the workspace "w" in memory.
use rosplus.Base.{ℕ, ◌≡◌, refl, none, some, List, [], ◌∷◌, arith}
use rosplus.Disk.Memory.{memory}
use rosplus.Server.Request.{Request}
use rosplus.Server.Dispatch.{dispatch}
use rosplus.Server.Dispatch.Laws.{dispatch_get}
use rosplus.Exec.{Result, ok, raise}
use rosplus.Json.{str, obj, end, field}
use rosplus.Paths.{path_beq}
use rosplus.Disk.Memory.{Tree, normalize}
use rosplus.Safety.Monitor
use rosplus.Safety.Monitor.{start}
use rosplus.Workspace.{new_manager}
use rosplus.Workspace.Registry.{IsRegistered}
use rosplus.Server.{Application}
use rosplus.Server.Dispatch.Registered.{dispatch-IsRegistered}
use rosplus.Server.Lifecycle.{new_application}
use rosplus.Server.Heartbeats.{Armed, rounds, rounds-Armed}
use rosplus.Server.Serve.{
  Settings, Event, asked, heartbeat_round, watch_round, root_of, token_of, serve,
}
use rosplus.Server.Serve.Laws.{Ended, serve-Ended}
use rosplus.Tests.Data.{app, world, request, manager-IsRegistered}

dispatch_get_example : (dispatch memory world request app).1 ≡ app
dispatch_get_example = dispatch_get memory world request app refl

-- A deletion without the token.
abbrev intruder : Request
intruder = record request { method = "DELETE"; path = "/api/v1/workspace/w"; authorization = none }

-- A workspace is created.
abbrev creation : Request
creation = record request {
  method = "POST";
  path = "/api/v1/workspace/create";
  body = ok (obj (field "name" (str "second") end));
}

dispatch-IsRegistered_example : IsRegistered (dispatch memory world creation app).1.sup.manager
dispatch-IsRegistered_example = dispatch-IsRegistered memory world creation app manager-IsRegistered

-- Two heartbeats come before and between two rounds of the watching thread.
abbrev lates : List ℕ
lates = 0 ∷ 100 ∷ 200_000 ∷ 7 ∷ []

abbrev made : Result (Application memory) × Tree
made = new_application memory ("r" ∷ []) "secret" [] 5 []

abbrev application_of : Result (Application memory) → Application memory
application_of (ok a) = a
application_of (raise e) = app

rounds-Armed_example :
    Armed
      (rounds memory lates
        (record { app = application_of made.0; next_beat = 6; next_check = 7 })).app.safety
unfolding new_application new_manager start Monitor.new path_beq normalize
rounds-Armed_example =
    rounds-Armed memory ("r" ∷ []) "secret" [] 5 [] 6 7 lates {app = application_of made.0}
      {d' = made.1} refl (omega arith)
      (omega arith, (omega arith, (omega arith, (omega arith, tt))))

-- A request and a round of each thread, until the interrupt.
abbrev settings : Settings
settings = record {
  root = some ("r" ∷ []);
  root_variable = none;
  token = some "";
  token_variable = some "secret";
}

abbrev events : List Event
events = asked world request ∷ heartbeat_round 10 ∷ watch_round 20 ∷ []

serve-Ended_example : Ended memory events (ok tt) (serve memory settings (ok tt) [] events 5 30 [])
unfolding new_application new_manager start Monitor.new path_beq normalize root_of token_of
serve-Ended_example =
    serve-Ended memory settings (ok tt) [] events 5 30 [] {app = application_of made.0}
      {d' = made.1} refl
