-- ===== src/Exec/Errors.antt =====
-- The exceptions of the package: `WorkspaceError` by the place that raises it, and those of the
-- library that src/rosplus/server.py tells apart.
use rosplus.Base.{String, ◌<>◌}

pub data WorkspaceError : Type 0 where
  bad_name : WorkspaceError
  unknown_template : String → WorkspaceError
  name_exists : WorkspaceError
  workspace_not_found : WorkspaceError
  running_nodes : WorkspaceError
  path_escapes : WorkspaceError
  directory_not_found : WorkspaceError
  file_not_found : WorkspaceError
  build_in_progress : WorkspaceError
  target_not_found : WorkspaceError
  native_mode : WorkspaceError
  not_python : WorkspaceError
  already_running : WorkspaceError

-- `str(exc)`
unfoldable pub message : WorkspaceError → String
message bad_name = "name must match ^[A-Za-z0-9_-]{1,64}$"
message (unknown_template template) = "unknown template: " <> template
message name_exists = "workspace name already exists"
message workspace_not_found = "workspace not found"
message running_nodes = "stop running nodes before deletion"
message path_escapes = "path escapes workspace boundary"
message directory_not_found = "directory not found"
message file_not_found = "file not found"
message build_in_progress = "build already in progress"
message target_not_found = "target not found"
message native_mode =
    "native Rust execution requires the ROSPlus executor adapter and ROS 2 runtime"
message not_python = "reference supervisor currently executes Python legacy nodes only"
message already_running = "node is already running"

pub data Exception : Type 0 where
  workspace_error : WorkspaceError → Exception
  -- `PermissionError`, also that of the operating system
  permission_error : String → Exception
  -- `ValueError`, with `JSONDecodeError` and `UnicodeDecodeError`
  value_error : String → Exception
  -- any other, such as `OSError`, `KeyError`, `TypeError`
  other_error : String → Exception
