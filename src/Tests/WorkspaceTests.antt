-- ===== src/Tests/WorkspaceTests.antt =====
-- Workspaces and their files in memory.
use rosplus.Base.{String, ◌≡◌, ◌↔◌, refl, false, List, [], ◌∷◌, ◌++◌, map, arith}
use rosplus.Base.Dict.{get, remove}
use rosplus.Base.Sort.{sort, place}
use rosplus.Base.Text.{join}
use rosplus.Exec.{ok}
use rosplus.Models.{info}
use rosplus.Models.Bounded.{Call, Window, line, log_many, log-Window}
use rosplus.Paths.{split, parts, child, path_beq, parents, member, parent, name}
use rosplus.Paths.Names.{lower}
use rosplus.Disk.Memory.{memory, memory-IsLawful, normalize, children, cleared}
use rosplus.Workspace.{Manager, Saved, FileInfo, create, delete, has_running, relative_to}
use rosplus.Workspace.Files.{safe_path, list_files, describe, describe_all, write_file, item_le}
use rosplus.Workspace.Boundary.{Inside, Resolves, safe_path_iff}
use rosplus.Workspace.Registry.{Outcome, create-Outcome, Deleted, delete-get}
use rosplus.Workspace.RoundTrip.{ReadsBack, read_file-write_file}
use rosplus.Workspace.Listing.{Listed, list_files-Listed}
use rosplus.Tests.Data.{demo, tree, manager, env, manager-IsRegistered}

abbrev calls : List Call
calls = record { now = "t1"; severity = info; message = "m"; node = "n" } ∷ []

log-Window_example : Window (demo.logs ++ map (line demo.id) calls) (log_many calls demo).logs
log-Window_example = log-Window calls demo (omega arith)

safe_path_iff_example :
    (safe_path memory tree demo "src/../a.py" ≡ ok ("r" ∷ "w" ∷ "a.py" ∷ [])) ↔ (
      Resolves memory tree demo "src/../a.py" ("r" ∷ "w" ∷ "a.py" ∷ [])
      × Inside demo.path ("r" ∷ "w" ∷ "a.py" ∷ []))
safe_path_iff_example = safe_path_iff memory tree demo "src/../a.py" ("r" ∷ "w" ∷ "a.py" ∷ [])

-- A name that is free.
create-Outcome_example :
    Outcome memory env "second" "empty" manager (create memory env "second" "empty" manager)
create-Outcome_example = create-Outcome memory env "second" "empty" manager

abbrev without : Manager memory
unfolding cleared
without = record manager { items = []; disk = cleared ("r" ∷ "w" ∷ []) tree }

delete-get_example : Deleted memory "w" manager demo without
unfolding delete get remove has_running without
delete-get_example = delete-get memory "w" manager refl

abbrev saved : Saved
saved = record { path = "c.py"; size_bytes = 1; last_modified = "t1" }

abbrev after_write : Manager memory
after_write = (write_file memory "t1" "w" "c.py" "x\r\n" manager).1

read_file-write_file_example :
    ReadsBack memory memory-IsLawful "t2" "w" "c.py" "x\r\n" saved after_write
unfolding write_file get safe_path child parts split normalize path_beq member parents parent
read_file-write_file_example =
    read_file-write_file memory memory-IsLawful "t1" "t2" "w" "c.py" "x\r\n" manager
      manager-IsRegistered refl

abbrev entry : String → FileInfo
entry n = record {
  file_name = n;
  path = n;
  is_directory = false;
  size_bytes = 1;
  last_modified = "t1";
}

list_files-Listed_example :
    Listed memory lower "t1" "w" "" manager (entry "a.py" ∷ entry "b.py" ∷ [])
unfolding list_files get safe_path child parts split normalize path_beq member parents parent name
    children describe_all describe sort place item_le lower relative_to join
list_files-Listed_example = list_files-Listed memory lower "t1" "w" "" manager refl
