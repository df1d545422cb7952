-- ===== src/Process/Stop/Laws/Races.antt =====
-- What the thread of `_capture` does to the record of its node's name, whoever holds that name now.
use text.Mathlib.TextPositions.{eq_refl}
use rosplus.Base.{String, ◌≡◌, ◌≢◌, true, some, arith, if◌then◌else◌}
use rosplus.Base.Dict
use rosplus.Exec.{ok}
use rosplus.Models.{Workspace, NodeRecord, running, stopped, error, log}
use rosplus.Disk.{Disk}
use rosplus.Process.{Supervisor, update, get-update, processes-update}
use rosplus.Process.Table.{ExitCode, is_zero, is_live, process_at}
use rosplus.Process.Run.{Launch, RunReport, run}
use rosplus.Process.Run.Laws.{run_lem, key_of, started_node}
use rosplus.Process.Stop.{capture_exit}

node-capture_exit :
    (utc name : String) (code : ExitCode) (w : Workspace) {n : NodeRecord}
    → Dict.get name w.nodes ≡ some n
    → Dict.get name (capture_exit utc name code w).nodes
      ≡ some (record n { status = if is_zero code then stopped else error })
unfolding capture_exit log
node-capture_exit utc name code w {n} h = ground (
  arith,
  eq_refl name,
  Dict.get-put name name (record n { status = if is_zero code then stopped else error }) w.nodes,
)

-- The node of `r` has a live process, and its record does not say that it is running.
abbrev pub Orphaned : {D : Disk} → String → RunReport → Supervisor D → Type 0
Orphaned ident r s =
    (is_live (process_at (key_of ident r) s.processes) ≡ true)
    × ((w : Workspace) × (n : NodeRecord) × (Dict.get ident s.manager.items ≡ some w)
        × (Dict.get r.node_name w.nodes ≡ some n)
        × (n.status ≢ running))

-- If a node is run again before the thread of its earlier process has finished, that thread takes
-- the new node's record: the node is not running by its record, and its process is alive.
pub stale_capture :
    (D : Disk) (env : Launch) (ident target asked utc : String) (code : ExitCode) (s : Supervisor D)
    {r : RunReport} {s' : Supervisor D}
    → run D env ident target asked s ≡ (ok r, s')
    → Orphaned ident r (update D ident (capture_exit utc r.node_name code) s')
stale_capture D env ident target asked utc code s {r} {s'} h =
    let (_, _, w, _, _, _, _, _, _, _, table, found, node, _) =
      run_lem D env ident target asked s h in
    let f = capture_exit utc r.node_name code in
    (
      rw ((processes-update D ident f s').0, table, eq_refl ident, eq_refl r.node_name),
      (
        f w,
        record (started_node env target r) { status = if is_zero code then stopped else error },
        rw (get-update, eq_refl ident, found),
        node-capture_exit utc r.node_name code w node,
        ground arith,
      ),
    )
