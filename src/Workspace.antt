-- ===== src/Workspace.antt =====
-- src/rosplus/workspace.py: the registry of workspaces and the files behind them.
pub mod Templates
pub mod Files
pub mod Boundary
pub mod Registry
pub mod RoundTrip
pub mod Listing
use rosplus.Base.{
  ℕ, String, ◌<>◌, Bool, true, false, not, ◌&&◌, ◌||◌, Option, none, some, List, [], ◌∷◌, any, map,
  ◌==◌, if◌then◌else◌,
}
use rosplus.Base.Dict
use rosplus.Base.Dict.{Dict}
use rosplus.Base.Sort.{sort}
use rosplus.Base.Text.{join}
use rosplus.Exec.{
  Result, ok, raise, Act, pure, throw, lift, gets, modify, require, proceed, ◌>>=◌, ◌>>◌,
}
use rosplus.Exec.Errors.{
  Exception, workspace_error, value_error, bad_name, unknown_template, name_exists,
  workspace_not_found, running_nodes, path_escapes, directory_not_found, file_not_found,
}
use rosplus.Models.{
  FilePath, Workspace, NodeRecord, NodeStatus, starting, running, stopped, error, Severity, info,
  idle, log,
}
use rosplus.Paths.{child, path_beq, parents, member, parent, name}
use rosplus.Paths.Names.{split_name, lower}
use rosplus.Disk.{Disk, read_text}
use rosplus.Workspace.Templates.{valid_name, template_files}

-- `WorkspaceManager`, with the file system that it works on.
pub record Manager (D : Disk) : Type 0 where
  pub root : FilePath
  pub items : Dict Workspace
  pub disk : D.State

-- What a call reads from outside: the time as `utc_now` gives it, and a new `uuid4`.
pub record Env : Type 0 where
  pub utc : String
  pub uuid : String

abbrev pub is_running : NodeStatus → Bool
is_running running = true
is_running _ = false

-- `any(n.status == "running" for n in ws.nodes.values())`
unfoldable pub has_running : Workspace → Bool
has_running w = any (λ (n : NodeRecord). is_running n.status) (Dict.values w.nodes)

-- `language`
unfoldable pub language : FilePath → String
unfolding lower split_name name
language path =
    let suffix = lower (split_name (name path)).suffix in
    if suffix == ".py"
    then "python"
    else if suffix == ".rs"
    then "rust"
    else if suffix == ".cpp"
    then "cpp"
    else if suffix == ".cc"
    then "cpp"
    else if suffix == ".yaml"
    then "yaml"
    else if suffix == ".yml"
    then "yaml"
    else if suffix == ".xml"
    then "xml"
    else if suffix == ".json"
    then "json"
    else if suffix == ".toml"
    then "toml"
    else if suffix == ".md"
    then "markdown"
    else "text"

-- `path.relative_to(base)`
unfoldable pub relative_to : FilePath → FilePath → Result FilePath
relative_to [] path = ok path
relative_to (b ∷ base) [] = raise (value_error "is not in the subpath")
relative_to (b ∷ base) (p ∷ path) =
    if b == p then relative_to base path else raise (value_error "is not in the subpath")

pub record FileInfo : Type 0 where
  pub file_name : String
  pub path : String
  pub is_directory : Bool
  pub size_bytes : ℕ
  pub last_modified : String

pub record FileContent : Type 0 where
  pub path : String
  pub content : String
  pub language : String
  pub size_bytes : ℕ
  pub last_modified : String

pub record Saved : Type 0 where
  pub path : String
  pub size_bytes : ℕ
  pub last_modified : String

module _ (D : Disk) where
  -- A call of the file system from a method of the manager.
  abbrev pub on_disk : (D.State → Result (Unit {0}) × D.State) → Act (Manager D) (Unit {0})
  on_disk f m = let (r, d) = f m.disk in (r, record m { disk = d })

  -- `__init__`
  unfoldable pub new_manager : FilePath → D.State → Result (Manager D) × D.State
  new_manager root d = elim (D.resolve d root) [
    | raise e ↦ (raise e, d)
    | ok path ↦
        let (r, d') = D.make_dirs path d in
        (
          elim r [ ok _ ↦ ok (record { root = path; items = []; disk = d' }) | raise e ↦ raise e ],
          d',
        )
  ]

  unfoldable pub get : String → Act (Manager D) Workspace
  get ident m = (
    elim (Dict.get ident m.items) [
      | some w ↦ ok w
      | none ↦ raise (workspace_error workspace_not_found)
    ],
    m,
  )

  -- A change of the workspace object `w`, seen through the registry.
  abbrev pub store : Workspace → Act (Manager D) (Unit {0})
  store w = modify (λ m. record m { items = Dict.put w.id w m.items })

  -- The loop over the files of a template.
  unfoldable pub write_files : FilePath → List (String × String) → Act (Manager D) (Unit {0})
  write_files base [] = pure tt
  write_files base ((relative, content) ∷ rest) = do
    let target = child base relative
    on_disk (D.make_dirs (parent target))
    on_disk (D.write_text target content)
    write_files base rest

  abbrev files_of : String → Result (List (String × String))
  files_of template = elim (template_files template) [
    | some files ↦ ok files
    | none ↦ raise (workspace_error (unknown_template template))
  ]

  -- `any(w.name == name for w in self._items.values())`
  abbrev pub name_taken : String → Manager D → Bool
  name_taken name m = any (λ (w : Workspace). w.name == name) (Dict.values m.items)

  -- `Workspace(id=…, …)` and the first line of its log
  unfoldable pub new_workspace : Env → FilePath → String → String → Workspace
  unfolding log
  new_workspace env path name template =
      log env.utc info ("workspace created from " <> (template <> " template")) "control-plane"
        (record {
          id = env.uuid;
          name = name;
          path = path;
          template = template;
          status = idle;
          created = env.utc;
          last_activity = env.utc;
          nodes = [];
          logs = [];
          build_lock = false;
        })

  unfoldable pub create : Env → String → String → Act (Manager D) Workspace
  unfolding new_workspace write_files
  create env name template = do
    require (valid_name name) (workspace_error bad_name)
    files ← lift (files_of template)
    taken ← gets (name_taken name)
    require (not taken) (workspace_error name_exists)
    root ← gets (λ m. m.root)
    let path = child root env.uuid
    on_disk (D.mkdir path)
    write_files path files
    let ws = new_workspace env path name template
    store ws
    pure ws

  unfoldable pub delete : String → Act (Manager D) Workspace
  unfolding get has_running
  delete ident = do
    ws ← get ident
    require (not (has_running ws)) (workspace_error running_nodes)
    on_disk (D.rmtree ws.path)
    modify (λ m. record m { items = Dict.remove ident m.items })
    pure ws
