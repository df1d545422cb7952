-- ===== src/Models/Bounded.antt =====
-- `Workspace.log`: the log of a workspace is a window on all that was logged.
use mathlib.Core.List.{append_assoc, append-nil}
use rosplus.Base.{
  ℕ, ◌+◌, ◌≤◌, ◌≡◌, refl, ◌∙◌, sym, ap, ◌⊎◌, inl, inr, true, false, String, List, [], ◌∷◌, ◌++◌,
  arith, map, length, drop, length-append, length-drop, drop-drop, drop-append, ltb, Bool-cases,
  ltb→lt, not_ltb→le,
}
use rosplus.Models.{Severity, LogRecord, Workspace, trim, log}

-- One call of `log`.
pub record Call : Type 0 where
  pub now : String
  pub severity : Severity
  pub message : String
  pub node : String

-- What a call appends to the log of the workspace `id`.
abbrev pub line : String → Call → LogRecord
line id c = record {
  workspace_id = id;
  timestamp = c.now;
  severity = c.severity;
  node = c.node;
  message = c.message;
}

unfoldable pub log_many : List Call → Workspace → Workspace
log_many [] w = w
log_many (c ∷ cs) w = log_many cs (log c.now c.severity c.message c.node w)

-- `logs` is what is left of `whole` after dropping its oldest lines: at most 1000 lines, and, if
-- any line was dropped, at least 751.
pub record Window (whole logs : List LogRecord) : Type 0 where
  pub cut : ℕ
  pub within : cut ≤ length whole
  pub kept : logs ≡ drop cut whole
  pub small : length logs ≤ 1000
  pub recent : (cut ≡ 0) ⊎ (751 ≤ length logs)

-- The window, with one more line on both sides, before the trim.
extended :
    (whole logs : List LogRecord) (e : LogRecord) (w : Window whole logs)
    → logs ++ e ∷ [] ≡ drop w.cut (whole ++ e ∷ [])
extended whole logs e w =
    ap (λ l. l ++ e ∷ []) w.kept ∙ sym (drop-append w.cut whole (e ∷ []) w.within)

module _ (whole logs : List LogRecord) (e : LogRecord) (w : Window whole logs) where
  Window-trim :
      ltb 1000 (length (logs ++ e ∷ [])) ≡ true
      → Window (whole ++ e ∷ []) (drop 250 (logs ++ e ∷ []))
  Window-trim full =
      let over = ltb→lt 1000 (length (logs ++ e ∷ [])) full in
      let size = length-append logs (e ∷ []) in
      let longer = length-append whole (e ∷ []) in
      let rest = ap length w.kept ∙ length-drop w.cut whole in
      let cutting = length-drop 250 (logs ++ e ∷ []) in
      record {
        cut = w.cut + 250;
        within = omega (arith, w.within);
        kept = ap (drop 250) (extended whole logs e w) ∙ drop-drop 250 w.cut (whole ++ e ∷ []);
        small = omega (arith, w.small);
        recent = inr (omega (arith, w.small));
      }

  Window-keep :
      ltb 1000 (length (logs ++ e ∷ [])) ≡ false → Window (whole ++ e ∷ []) (logs ++ e ∷ [])
  Window-keep fits =
      let size = length-append logs (e ∷ []) in
      let longer = length-append whole (e ∷ []) in
      record {
        cut = w.cut;
        within = omega (arith, w.within);
        kept = extended whole logs e w;
        small = not_ltb→le 1000 (length (logs ++ e ∷ [])) fits;
        recent = ground (arith, w.recent, size);
      }

  pub Window-append : Window (whole ++ e ∷ []) (trim (logs ++ e ∷ []))
  Window-append = elim (Bool-cases (ltb 1000 (length (logs ++ e ∷ [])))) [
    | inl full ↦ rw full (Window-trim full)
    | inr fits ↦ rw fits (Window-keep fits)
  ]

pub Window-many :
    (cs : List Call) (whole : List LogRecord) (w : Workspace)
    → Window whole w.logs
    → Window (whole ++ map (line w.id) cs) (log_many cs w).logs
unfolding log_many log
Window-many [] whole w h = rw append-nil h
Window-many (c ∷ cs) whole w h =
    let step = Window-append whole w.logs (line w.id c) h in
    rw (append_assoc whole (line w.id c ∷ []) (map (line w.id) cs)) at
      (Window-many cs (whole ++ line w.id c ∷ []) (log c.now c.severity c.message c.node w) step)

-- After any calls of `log`, from a workspace of at most 1000 lines, the log is what remains of the
-- old lines followed by the new ones when the oldest are dropped. At most 1000 lines remain, and
-- at least 751 if any was dropped.
pub log-Window :
    (cs : List Call) (w : Workspace)
    → length w.logs ≤ 1000
    → Window (w.logs ++ map (line w.id) cs) (log_many cs w).logs
log-Window cs w h =
    Window-many cs w.logs w
      (record { cut = 0; within = omega arith; kept = refl; small = h; recent = inl refl })

-- `log` changes the time of the last activity and the log, and nothing else.
pub log_frame :
    (now : String) (severity : Severity) (message node : String) (w : Workspace)
    → log now severity message node w
      ≡ record w { last_activity = now; logs = (log now severity message node w).logs }
unfolding log
log_frame now severity message node w = refl
