-- ===== src/Server/Dispatch/Laws.antt =====
-- What clients may rely on.
use rosplus.Base.{
  String, ◌≡◌, ◌⊎◌, refl, Bool, true, false, ◌&&◌, List, [], ◌∷◌, arith, inl, inr, Option-cases,
  ◌==◌, if◌then◌else◌,
}
use rosplus.Base.Dict
use rosplus.Models.{Workspace}
use rosplus.Paths.{path_beq}
use rosplus.Disk.{Disk}
use rosplus.Server.{Application}
use rosplus.Server.Request.{Request, path_parts}
use rosplus.Server.Dispatch.{
  World, dispatch, api, is_open, workspace_route, read_route, files_route, graph_route,
}
use rosplus.Base.Text.{join}
use rosplus.Workspace.{Manager}
use rosplus.Workspace.Files.{read_file}
use rosplus.Workspace.Listing.{state-list_files}

-- The path is one of the three that need no token.
abbrev pub Open : Request → Type 0
Open r = (r.path ≡ "/health") ⊎ (r.path ≡ "/metrics") ⊎ (r.path ≡ "/")

module _ (D : Disk) (world : World) (r : Request) (app : Application D) where
  -- The three open paths change nothing, whatever the method and with or without the token.
  pub dispatch_open : is_open r ≡ true → (dispatch D world r app).1 ≡ app
  unfolding dispatch
  dispatch_open free = ground arith

-- A branch keeps the state if each side does.
keeps_if :
    {A S : Type 0} {s : S} (b : Bool) (x y : A × S)
    → (b ≡ true → x.1 ≡ s)
    → y.1 ≡ s
    → (if b then x else y).1 ≡ s
keeps_if true x y h k = h refl
keeps_if false x y h k = k

abbrev tail_is : List String → String → Bool
tail_is tail word = path_beq tail (word ∷ [])

module _ (D : Disk) where
  state-read_file :
      (utc ident relative : String) (m : Manager D) → (read_file D utc ident relative m).1 ≡ m
  unfolding read_file
  state-read_file utc ident relative m = ground arith

  module _ (world : World) (r : Request) (ident : String) (app : Application D) where
    -- Reading routes change nothing.
    pub state-read_route : (relative : String) → (read_route D world r ident relative app).1 ≡ app
    unfolding read_route
    state-read_route relative =
        ground (arith, state-read_file world.env.utc ident relative app.sup.manager)

    pub state-files_route : (files_route D world r ident app).1 ≡ app
    unfolding files_route
    state-files_route =
        ground
          (arith, state-list_files D world.lower world.env.utc ident r.query_path app.sup.manager)

    pub state-graph_route : (w : Workspace) → (graph_route D world r ident w app).1 ≡ app
    unfolding graph_route
    state-graph_route w = ground arith

    state-workspace_route :
        (tail : List String) (w : Workspace)
        → r.method ≡ "GET"
        → (workspace_route D world r ident tail w app).1 ≡ app
    unfolding workspace_route
    state-workspace_route [] w get =
        let is_get : (r.method == "GET") ≡ true = rw get in ground arith
    state-workspace_route (head ∷ rest) w get =
        let is_get : (r.method == "GET") ≡ true = rw get in
        let not_put : (r.method == "PUT") ≡ false = rw get in
        let not_post : (r.method == "POST") ≡ false = rw get in
        keeps_if (tail_is (head ∷ rest) "status") _ _ (λ _. refl)
          (keeps_if (tail_is (head ∷ rest) "files") _ _ (λ _. state-files_route)
            (keeps_if (head == "file" && r.method == "GET") _ _
              (λ _. state-read_route (join "/" rest))
              (keeps_if (head == "file" && r.method == "PUT") _ _ (λ h. absurd (ground arith))
                (keeps_if (tail_is (head ∷ rest) "build" && r.method == "POST") _ _
                  (λ h. absurd (ground arith))
                  (keeps_if (tail_is (head ∷ rest) "run" && r.method == "POST") _ _
                    (λ h. absurd (ground arith))
                    (keeps_if (tail_is (head ∷ rest) "stop" && r.method == "POST") _ _
                      (λ h. absurd (ground arith))
                      (keeps_if (tail_is (head ∷ rest) "logs") _ _ (λ _. refl)
                        (keeps_if (tail_is (head ∷ rest) "graph") _ _ (λ _. state-graph_route w)
                          (keeps_if (tail_is (head ∷ rest) "metrics") _ _ (λ _. refl) refl)))))))))

  state-api :
      (world : World) (r : Request) (app : Application D) (parts : List String)
      → r.method ≡ "GET"
      → (api D world r parts app).1 ≡ app
  unfolding api
  state-api world r app [] get = refl
  state-api world r app (a ∷ []) get = refl
  state-api world r app (a ∷ v ∷ []) get = refl
  state-api world r app (a ∷ v ∷ k ∷ []) get = refl
  state-api world r app (a ∷ v ∷ k ∷ i ∷ tail) get =
      let not_post : (r.method == "POST") ≡ false = rw get in
      elim (Option-cases (Dict.get i app.sup.manager.items)) [
        | inl missing ↦ ground arith
        | inr (w, found) ↦ ground (arith, state-workspace_route world r i app tail w get)
      ]

  -- A request with the method GET changes nothing: not the registry, nor a process, nor a file,
  -- whatever it asks for and whether or not it is allowed.
  pub dispatch_get :
      (world : World) (r : Request) (app : Application D)
      → r.method ≡ "GET"
      → (dispatch D world r app).1 ≡ app
  unfolding dispatch
  dispatch_get world r app get =
      ground (arith, state-api world r app (path_parts world.unquote r.path) get)
