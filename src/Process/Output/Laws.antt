-- ===== src/Process/Output/Laws.antt =====
-- What the thread of `_capture` leaves of a workspace.
use mathlib.Core.Option.{map as option_map}
use rosplus.Base.{
  ◌≤◌, ◌≡◌, refl, sym, ◌∙◌, ap, subst, String, ◌<>◌, false, List, [], ◌∷◌, ◌++◌, map, length, arith,
  ◌==◌, eq_iff, if◌then◌else◌, Option-cases, inl, inr,
}
use rosplus.Base.Dict
use rosplus.Models.{
  Workspace, NodeRecord, LogRecord, stopped, error, info, error_level, idle, failed, log, trim,
}
use rosplus.Models.Bounded.{Call, line, log_many, Window, Window-append, Window-many}
use rosplus.Workspace.{has_running}
use rosplus.Process.Table.{ExitCode, is_zero, code_text}
use rosplus.Process.Stop.{capture_line, capture_exit}
use rosplus.Process.Output.{rstrip, capture_lines, capture}

abbrev pub line_call : String → String × String → Call
line_call name (utc, text) = record {
  now = utc;
  severity = info;
  message = rstrip text;
  node = name;
}

abbrev pub exit_call : String → String → ExitCode → Call
exit_call name utc exit = record {
  now = utc;
  severity = if is_zero exit then info else error_level;
  message = "process exited with code " <> code_text exit;
  node = name;
}

capture_lines-log_many :
    (name : String) (lines : List (String × String)) (w : Workspace)
    → capture_lines name lines w ≡ log_many (map (line_call name) lines) w
unfolding capture_lines log_many capture_line
capture_lines-log_many name [] w = refl
capture_lines-log_many name ((utc, text) ∷ lines) w =
    capture_lines-log_many name lines (capture_line utc name (rstrip text) w)

log_many-kept :
    (cs : List Call) (w : Workspace)
    → ((log_many cs w).nodes ≡ w.nodes)
      × ((log_many cs w).status ≡ w.status)
      × ((log_many cs w).id ≡ w.id)
unfolding log_many log
log_many-kept [] w = (refl, refl, refl)
log_many-kept (c ∷ cs) w = log_many-kept cs (log c.now c.severity c.message c.node w)

-- The status of a node when its process has ended.
abbrev pub with_exit : ExitCode → NodeRecord → NodeRecord
with_exit exit n = record n { status = if is_zero exit then stopped else error }

-- What `_capture` has made of a workspace.
pub record Captured (name : String) (lines : List (String × String)) (utc : String)
    (exit : ExitCode) (w w' : Workspace) : Type 0 where
  pub logged :
      Window
        (w.logs
          ++ map (line w.id) (map (line_call name) lines)
          ++ line w.id (exit_call name utc exit) ∷ [])
        w'.logs
  pub node : Dict.get name w'.nodes ≡ option_map (with_exit exit) (Dict.get name w.nodes)
  pub others : (k : String) → name == k ≡ false → Dict.get k w'.nodes ≡ Dict.get k w.nodes
  pub state :
      w'.status ≡ (if has_running w' then w.status else if is_zero exit then idle else failed)

module _ (utc name : String) (exit : ExitCode) (v : Workspace) where
  exit-node :
      Dict.get name (capture_exit utc name exit v).nodes
      ≡ option_map (with_exit exit) (Dict.get name v.nodes)
  unfolding capture_exit log
  exit-node = elim (Option-cases (Dict.get name v.nodes)) [
    | inl missing ↦ ground (arith)
    | inr (n, found) ↦
        ground (arith, eq_iff name name, Dict.get-put name name (with_exit exit n) v.nodes)
  ]

  exit-others :
      (k : String)
      → name == k ≡ false
      → Dict.get k (capture_exit utc name exit v).nodes ≡ Dict.get k v.nodes
  unfolding capture_exit log
  exit-others k apart = elim (Option-cases (Dict.get name v.nodes)) [
    | inl missing ↦ ground (arith)
    | inr (n, found) ↦ ground (arith, Dict.get-put name k (with_exit exit n) v.nodes)
  ]

  exit-state : (capture_exit utc name exit v).status ≡ (
      if has_running (capture_exit utc name exit v)
      then v.status
      else if is_zero exit
      then idle
      else failed)
  unfolding capture_exit log has_running
  exit-state = ground arith

  exit-logs :
      (capture_exit utc name exit v).logs
      ≡ trim (v.logs ++ line v.id (exit_call name utc exit) ∷ [])
  unfolding capture_exit log
  exit-logs = ground arith

  exit-Window :
      (whole : List LogRecord)
      → Window whole v.logs
      → Window
          (whole ++ line v.id (exit_call name utc exit) ∷ [])
          (capture_exit utc name exit v).logs
  exit-Window whole h =
      let added = line v.id (exit_call name utc exit) in
      subst (Window (whole ++ added ∷ [])) (sym exit-logs) (Window-append whole v.logs added h)

module _ (name : String) (lines : List (String × String)) (utc : String) (exit : ExitCode) where
  -- The thread of `_capture` logs the lines of the output and then the exit, in a log of at most 1000
  -- lines that drops its oldest; it changes the status of its own node alone, by the exit code; and
  -- it changes the status of the workspace, by the exit code, where no node is running any more.
  pub capture-Captured :
      (w : Workspace)
      → length w.logs ≤ 1000
      → Captured name lines utc exit w (capture name lines utc exit w)
  unfolding capture
  capture-Captured w small =
      let v = capture_lines name lines w in
      let is = capture_lines-log_many name lines w in
      let kept = log_many-kept (map (line_call name) lines) w in
      let nodes : v.nodes ≡ w.nodes = ap (λ (x : Workspace). x.nodes) is ∙ kept.0 in
      let status : v.status ≡ w.status = ap (λ (x : Workspace). x.status) is ∙ kept.1 in
      let id : v.id ≡ w.id = ap (λ (x : Workspace). x.id) is ∙ kept.2 in
      let begun : Window w.logs w.logs = record {
        cut = 0;
        within = omega arith;
        kept = refl;
        small = small;
        recent = inl refl;
      } in
      let logged : Window (w.logs ++ map (line w.id) (map (line_call name) lines)) v.logs =
        subst
          (λ (x : Workspace).
            Window (w.logs ++ map (line w.id) (map (line_call name) lines)) x.logs)
          (sym is) (Window-many (map (line_call name) lines) w.logs w begun) in
      record {
        logged =
            subst
              (λ i.
                Window
                  (w.logs
                    ++ map (line w.id) (map (line_call name) lines)
                    ++ line i (exit_call name utc exit) ∷ [])
                  (capture_exit utc name exit v).logs)
              id
              (exit-Window utc name exit v (w.logs ++ map (line w.id) (map (line_call name) lines))
                logged);
        node =
            exit-node utc name exit v
            ∙ ap (λ ns. option_map (with_exit exit) (Dict.get name ns)) nodes;
        others = λ k apart. exit-others utc name exit v k apart ∙ ap (Dict.get k) nodes;
        state =
            exit-state utc name exit v
            ∙ ap
                (λ st.
                  if has_running (capture_exit utc name exit v)
                  then st
                  else if is_zero exit
                  then idle
                  else failed)
                status;
      }
