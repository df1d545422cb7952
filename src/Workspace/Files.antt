-- ===== src/Workspace/Files.antt =====
-- The file methods of `WorkspaceManager` in src/rosplus/workspace.py.
use Prim.Native.String.{compare}
use text.Mathlib.Text.{is_le}
use rosplus.Base.{
  String, ◌<>◌, Bool, true, false, not, ◌&&◌, List, [], ◌∷◌, map, ◌==◌, if◌then◌else◌,
}
use rosplus.Base.Sort.{sort}
use rosplus.Base.Text.{join}
use rosplus.Exec.{Result, ok, raise, Act, pure, lift, gets, require, ◌>>=◌, ◌>>◌}
use rosplus.Exec.Errors.{workspace_error, path_escapes, directory_not_found, file_not_found}
use rosplus.Models.{FilePath, Workspace, info, log}
use rosplus.Paths.{child, path_beq, parents, member, parent}
use rosplus.Disk.{Disk, read_text}
use rosplus.Workspace.{
  Manager, FileInfo, FileContent, Saved, on_disk, get, store, language, relative_to,
}

-- The key of `sorted` in `list_files`: directories first, then by name without case.
pub record Item : Type 0 where
  pub file_name : String
  pub is_dir : Bool

-- `lower` is `str.lower`.
unfoldable pub item_le : (String → String) → Item → Item → Bool
item_le lower a b =
    if a.is_dir
    then (if b.is_dir then is_le (compare (lower a.file_name) (lower b.file_name)) else true)
    else (if b.is_dir then false else is_le (compare (lower a.file_name) (lower b.file_name)))

module _ (D : Disk) where
  unfoldable pub safe_path : D.State → Workspace → String → Result FilePath
  safe_path d ws relative =
      let relative' = if relative == "" then "." else relative in
      elim (D.resolve d (child ws.path relative')) [
        | raise e ↦ raise e
        | ok candidate ↦
            if not (path_beq candidate ws.path) && not (member ws.path (parents candidate))
            then raise (workspace_error path_escapes)
            else ok candidate
      ]

  -- `safe_path` as a step of a method.
  abbrev pub checked : Workspace → String → Act (Manager D) FilePath
  checked ws relative m = (safe_path m.disk ws relative, m)

  abbrev pub item_of : D.State → FilePath → String → Item
  item_of d base n = record { file_name = n; is_dir = D.is_dir d (child base n) }

  -- The body of the loop in `list_files`.
  unfoldable pub describe : String → Workspace → FilePath → Item → Act (Manager D) FileInfo
  describe utc ws base item m =
      let path = child base item.file_name in
      (do
        size ← lift (D.size m.disk path)
        relative ← lift (relative_to ws.path path)
        pure (record {
          file_name = item.file_name;
          path = join "/" relative;
          is_directory = item.is_dir;
          size_bytes = size;
          last_modified = utc;
        }))
        m

  unfoldable pub describe_all :
      String → Workspace → FilePath → List Item → Act (Manager D) (List FileInfo)
  unfolding describe
  describe_all utc ws base [] = pure []
  describe_all utc ws base (item ∷ items) = do
    found ← describe utc ws base item
    rest ← describe_all utc ws base items
    pure (found ∷ rest)

  unfoldable pub list_files :
      (String → String) → String → String → String → Act (Manager D) (List FileInfo)
  unfolding get
  list_files lower utc ident relative = do
    ws ← get D ident
    base ← checked ws relative
    d ← gets (λ m. m.disk)
    require (D.exists d base && D.is_dir d base) (workspace_error directory_not_found)
    names ← lift (D.names d base)
    describe_all utc ws base (sort (item_le lower) (map (item_of d base) names))

  unfoldable pub read_file : String → String → String → Act (Manager D) FileContent
  unfolding get read_text
  read_file utc ident relative = do
    ws ← get D ident
    path ← checked ws relative
    d ← gets (λ m. m.disk)
    require (D.is_file d path) (workspace_error file_not_found)
    text ← lift (read_text D d path)
    size ← lift (D.size d path)
    pure (record {
      path = relative;
      content = text;
      language = language path;
      size_bytes = size;
      last_modified = utc;
    })

  unfoldable pub write_file : String → String → String → String → Act (Manager D) Saved
  unfolding get
  write_file utc ident relative content = do
    ws ← get D ident
    path ← checked ws relative
    on_disk D (D.make_dirs (parent path))
    on_disk D (D.write_text path content)
    store D (log utc info ("saved " <> relative) "control-plane" ws)
    d ← gets (λ m. m.disk)
    size ← lift (D.size d path)
    pure (record { path = relative; size_bytes = size; last_modified = utc })
