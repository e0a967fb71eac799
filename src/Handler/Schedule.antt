-- ===== src/Handler/Schedule.antt =====
-- server/phpstrom/handler.go: scheduleDocumentWork, the function that its timer runs, and the two
-- functions that cancel. A step is one critical section of documentAnalysisMu. The timers of the runtime
-- that are armed are a list; a timer that is armed may fire at any step, and stopping one succeeds where
-- it is armed.
use vscode_php_strom.Base.{
  ℕ, suc, Bool, false, ◌||◌, Option, none, some, List, [], ◌∷◌, ◌++◌, ◌==◌, ◌≡◌, if◌then◌else◌,
}
use vscode_php_strom.Dict.{Dict, lookup, insert, delete}
use vscode_php_strom.Text.{Bytes}

-- A timer with what its function runs on.
pub record Work : Type 0 where
  pub timer : ℕ
  pub uri : Bytes
  pub version : ℕ
  pub publish : Bool

-- `scheduled` is `documentAnalysisTimers`; `running` are the functions that fired and go on, and
-- `cancelled` the work that was stopped before it began, as the trace records it.
pub record Schedule : Type 0 where
  pub next : ℕ
  pub armed : List Work
  pub scheduled : Dict Work
  pub running : List Work
  pub cancelled : List Work

abbrev pub no_schedule : Schedule
no_schedule = record { next = 0; armed = []; scheduled = []; running = []; cancelled = [] }

-- `timer.Stop()`: the timers that stay armed, and whether it was.
abbrev pub disarm : ℕ → List Work → List Work
disarm timer [] = []
disarm timer (w ∷ armed) = if w.timer == timer then disarm timer armed else w ∷ disarm timer armed

abbrev pub is_armed : ℕ → List Work → Bool
is_armed timer [] = false
is_armed timer (w ∷ armed) = w.timer == timer || is_armed timer armed

abbrev pub disarm_work : Option Work → List Work → List Work
disarm_work none armed = armed
disarm_work (some w) armed = disarm w.timer armed

abbrev pub stopped_work : Option Work → List Work → List Work
stopped_work none armed = []
stopped_work (some w) armed = if is_armed w.timer armed then w ∷ [] else []

-- The work of a document that was scheduled before, if any, is stopped.
unfoldable pub stop : Option Work → Schedule → Schedule
stop found s = record s {
  armed = disarm_work found s.armed;
  cancelled = stopped_work found s.armed ++ s.cancelled;
}

unfoldable pub schedule_document_work : Bytes → ℕ → Bool → Schedule → Schedule
unfolding stop lookup insert
schedule_document_work uri version publish s =
    let stopped = stop (lookup uri s.scheduled) s in
    let w : Work = record { timer = s.next; uri = uri; version = version; publish = publish } in
    record stopped {
      next = suc s.next;
      armed = w ∷ stopped.armed;
      scheduled = insert uri w stopped.scheduled;
    }

-- The entry of a document is deleted if it is of this timer.
unfoldable pub forget : Work → Dict Work → Dict Work
unfolding lookup delete
forget w scheduled = elim (lookup w.uri scheduled) [
  | none ↦ scheduled
  | some v ↦ if v.timer == w.timer then delete w.uri scheduled else scheduled
]

-- A timer fires.
unfoldable pub fire : Work → Schedule → Schedule
fire w s = record s { armed = disarm w.timer s.armed; running = w ∷ s.running }

-- The first and the last critical section of the function of a timer.
unfoldable pub forget_work : Work → Schedule → Schedule
unfolding forget
forget_work w s = record s { scheduled = forget w s.scheduled }

unfoldable pub cancel_document_analysis : Bytes → Schedule → Schedule
unfolding stop lookup delete
cancel_document_analysis uri s = elim (lookup uri s.scheduled) [
  | none ↦ s
  | some w ↦ record (stop (some w) s) { scheduled = delete uri s.scheduled }
]

-- The loop over the map, in which each entry is deleted.
unfoldable pub cancel_loop : Dict Work → Schedule → Schedule
unfolding stop
cancel_loop [] s = s
cancel_loop ((_, w) ∷ entries) s = cancel_loop entries (stop (some w) s)

unfoldable pub cancel_all_document_analysis : Schedule → Schedule
unfolding cancel_loop
cancel_all_document_analysis s = record (cancel_loop s.scheduled s) { scheduled = [] }

pub data Step : Schedule → Schedule → Type 0 where
  scheduled :
      {s : Schedule} (uri : Bytes) (version : ℕ) (publish : Bool)
      → Step s (schedule_document_work uri version publish s)
  fired :
      {s : Schedule} (w : Work) (before after : List Work)
      → s.armed ≡ before ++ w ∷ after
      → Step s (fire w s)
  began :
      {s : Schedule} (w : Work) (before after : List Work)
      → s.running ≡ before ++ w ∷ after
      → Step s (forget_work w s)
  finished :
      {s : Schedule} (w : Work) (before after : List Work)
      → s.running ≡ before ++ w ∷ after
      → Step s (record (forget_work w s) { running = before ++ after })
  cancelled : {s : Schedule} (uri : Bytes) → Step s (cancel_document_analysis uri s)
  cancelled_all : {s : Schedule} → Step s (cancel_all_document_analysis s)

pub data Reachable : Schedule → Type 0 where
  start : Reachable no_schedule
  next : {s t : Schedule} → Reachable s → Step s t → Reachable t
