-- ===== src/Handler/Tests.antt =====
-- Runs of the shared state of server/phpstrom/handler.go at concrete inputs.
use vscode_php_strom.Base.{◌≡◌, refl, true, false, [], ◌∷◌, arith}
use vscode_php_strom.Text.{codes}
use vscode_php_strom.Handler.Trace.{
  EditorTraceEvent, new_recorder, record_events, snapshot, newest, numbered_from,
  snapshot-record_events,
}
use vscode_php_strom.Handler.Scan.{
  allow_step, after_step, new_scan_state_with_limit, IsWithin, Reachable-IsWithin,
}
use vscode_php_strom.Handler.Scan
use vscode_php_strom.Handler.Requests.{
  Requests, looping, scanning, request, round, after_round, no_requests, IsCoalesced,
  Reachable-IsCoalesced, WorkerSteps, queued-WorkerSteps,
}
use vscode_php_strom.Handler.Requests
use vscode_php_strom.Base.{◌&&◌, ◌↔◌, List, if◌then◌else◌, none}
use vscode_php_strom.Documents.Store.{DocumentStore, get_document}
use vscode_php_strom.Dict.{Dict, lookup}
use vscode_php_strom.Lsp.{Diagnostic}
use vscode_php_strom.Text.{Bytes}
use vscode_php_strom.Handler.Publication.{
  no_publication, Present, present, is_some, has_published_diagnostics, IsOpen, publish_diagnostics,
  publish_diagnostics_iff,
}
use vscode_php_strom.Handler.Published.{
  Operation, notify, clear, clear_outside, after, after_all, last_sent, shown, published_lem,
}
use vscode_php_strom.Handler.Schedule.{Schedule, no_schedule, schedule_document_work}
use vscode_php_strom.Handler.Schedule
use vscode_php_strom.Handler.Timers.{IsCoherent, Reachable-IsCoherent}

abbrev event : EditorTraceEvent
event = record {
  sequence = 0;
  operation = codes "workspace_index";
  outcome = codes "completed";
  uri = [];
  version = 0;
  duration_micros = 5;
  queue_micros = 0;
}

snapshot-record_events_example :
    snapshot (record_events new_recorder (event ∷ event ∷ []))
    ≡ newest (numbered_from 1 (event ∷ event ∷ []))
snapshot-record_events_example = snapshot-record_events (event ∷ event ∷ []) (omega arith)

-- Two calls load the same total, and the second finds it changed.
abbrev both_entered : Scan.ScanState
both_entered = new_scan_state_with_limit 10 (4 ∷ 3 ∷ [])

abbrev both_trying : Scan.ScanState
both_trying =
    after_step (after_step both_entered [] (Scan.entered 4) (Scan.entered 3 ∷ []))
      (Scan.trying 4 ∷ []) (Scan.entered 3) []

abbrev both_loaded : Scan.ScanState
both_loaded =
    after_step (after_step both_trying [] (Scan.trying 4) (Scan.trying 3 ∷ []))
      (Scan.loaded 4 0 ∷ []) (Scan.trying 3) []

abbrev one_returned : Scan.ScanState
one_returned =
    after_step (after_step both_loaded [] (Scan.loaded 4 0) (Scan.loaded 3 0 ∷ []))
      (Scan.returned 4 true ∷ []) (Scan.loaded 3 0) []

race_run : one_returned.calls ≡ Scan.returned 4 true ∷ Scan.trying 3 ∷ []
unfolding after_step allow_step
race_run = refl

one_returned-Reachable : Scan.Reachable 10 (4 ∷ 3 ∷ []) one_returned
unfolding after_step allow_step
one_returned-Reachable =
    Scan.Reachable.next
      (Scan.Reachable.next
        (Scan.Reachable.next
          (Scan.Reachable.next
            (Scan.Reachable.next
              (Scan.Reachable.next Scan.Reachable.start
                (Scan.Step.ran [] (Scan.entered 4) (Scan.entered 3 ∷ []) refl))
              (Scan.Step.ran (Scan.trying 4 ∷ []) (Scan.entered 3) [] refl))
            (Scan.Step.ran [] (Scan.trying 4) (Scan.trying 3 ∷ []) refl))
          (Scan.Step.ran (Scan.loaded 4 0 ∷ []) (Scan.trying 3) [] refl))
        (Scan.Step.ran [] (Scan.loaded 4 0) (Scan.loaded 3 0 ∷ []) refl))
      (Scan.Step.ran (Scan.returned 4 true ∷ []) (Scan.loaded 3 0) [] refl)

Reachable-IsWithin_example : IsWithin 10 one_returned
Reachable-IsWithin_example = Reachable-IsWithin one_returned-Reachable

-- A request, its scan, and a second request in the scan.
abbrev scan_begun : Requests
scan_begun = after_round (request false no_requests) [] []

abbrev queued_again : Requests
queued_again = request true scan_begun

queued_again-Reachable : Requests.Reachable queued_again
unfolding request
queued_again-Reachable =
    Requests.Reachable.next
      (Requests.Reachable.next
        (Requests.Reachable.next Requests.Reachable.start (Requests.Step.requested false))
        (Requests.Step.worked (Requests.WorkerStep.took_round [] [] refl)))
      (Requests.Step.requested true)

Reachable-IsCoalesced_example : IsCoalesced queued_again
Reachable-IsCoalesced_example = Reachable-IsCoalesced queued_again-Reachable

queued-WorkerSteps_example :
    (t : Requests) × WorkerSteps queued_again t
    × (t.workers ≡ scanning queued_again.index ∷ [])
    × (t.queued ≡ false)
unfolding request round after_round
queued-WorkerSteps_example = queued-WorkerSteps queued_again queued_again-Reachable refl

abbrev problem : Diagnostic
problem = record {
  range = record {
    start = record { line = 0; character = 0 };
    end = record { line = 0; character = 1 };
  };
  severity = none;
  code = none;
  source = [];
  message = codes "m";
  tags = [];
}

abbrev operations : List Operation
operations = notify (codes "a") (problem ∷ []) ∷ notify (codes "b") (problem ∷ []) ∷ []

abbrev seen : Dict Present
seen = (codes "a", present) ∷ []

published_lem_example :
    (has_published_diagnostics (after_all no_publication operations) (codes "b")
      ≡ shown (last_sent (codes "b") (after_all no_publication operations).sent))
    × (shown (
          last_sent
            (codes "b")
            (after (after_all no_publication operations) (clear_outside seen)).sent)
        ≡ (shown (last_sent (codes "b") (after_all no_publication operations).sent)
            && is_some (lookup (codes "b") seen)))
    × (shown (last_sent (codes "b") (after (after_all no_publication operations) clear).sent)
        ≡ false)
published_lem_example = published_lem operations seen (codes "b")

abbrev one_document : DocumentStore
one_document = record {
  docs = (codes "a", record { uri = codes "a"; version = 2; text = codes "x" }) ∷ [];
}

abbrev analyse : Bytes → Bytes → List Diagnostic
analyse uri text = problem ∷ []

publish_diagnostics_iff_example :
    (((publish_diagnostics analyse 5 no_publication new_recorder one_document
          (codes "a")
          (codes "x")
          1).result
        ≡ true)
      ↔ IsOpen (get_document one_document (codes "a")) (codes "x") 1)
    × ((publish_diagnostics analyse 5 no_publication new_recorder one_document
          (codes "a")
          (codes "x")
          1).publication.sent
        ≡ (if (publish_diagnostics analyse 5 no_publication new_recorder one_document
              (codes "a")
              (codes "x")
              1).result
            then record { uri = codes "a"; diagnostics = problem ∷ [] } ∷ []
            else []))
publish_diagnostics_iff_example =
    publish_diagnostics_iff analyse 5 no_publication new_recorder one_document (codes "a")
      (codes "x") 1

-- The second scheduling of a document.
abbrev scheduled_twice : Schedule
unfolding schedule_document_work
scheduled_twice =
    schedule_document_work (codes "a") 2 true
      (schedule_document_work (codes "a") 1 false no_schedule)

Reachable-IsCoherent_example : IsCoherent scheduled_twice
unfolding scheduled_twice
Reachable-IsCoherent_example = Reachable-IsCoherent (
    Schedule.Reachable.next
      (Schedule.Reachable.next Schedule.Reachable.start
        (Schedule.Step.scheduled (codes "a") 1 false))
      (Schedule.Step.scheduled (codes "a") 2 true))
