-- ===== src/Handler/Trace.antt =====
-- server/phpstrom/handler.go: editorTraceRecorder, the bounded record of what the handler did.
use vscode_php_strom.Base.{
  ℕ, u64_mod, zero, suc, ◌+◌, ◌-◌, ◌%◌, ◌≤◌, ◌<◌, ◌≡◌, refl, ap, sym, ◌∙◌, List, [], ◌∷◌, ◌++◌,
  ◌==◌, arith, if◌then◌else◌, length, length-append, length-drop, drop, inl, inr, Bool-cases,
  append-nil, append_assoc, drop-drop, ==_iff,
}
use vscode_php_strom.Text.{Bytes}

pub record EditorTraceEvent : Type 0 where
  pub sequence : ℕ
  pub operation : Bytes
  pub outcome : Bytes
  pub uri : Bytes
  pub version : ℕ
  pub duration_micros : ℕ
  pub queue_micros : ℕ

pub record EditorTraceRecorder : Type 0 where
  pub sequence : ℕ
  pub events : List EditorTraceEvent

abbrev pub max_editor_trace_events : ℕ
max_editor_trace_events = 1024

abbrev pub new_recorder : EditorTraceRecorder
new_recorder = record { sequence = 0; events = [] }

-- `copy(r.events, r.events[1:])` and the last entry overwritten, when the record is full.
abbrev pub push_event : List EditorTraceEvent → EditorTraceEvent → List EditorTraceEvent
push_event events event =
    if length events == max_editor_trace_events
    then drop 1 events ++ event ∷ []
    else events ++ event ∷ []

-- Of a recorder that is not nil; the handler has one from its start.
unfoldable pub record_event : EditorTraceRecorder → EditorTraceEvent → EditorTraceRecorder
record_event r event =
    let sequence = (r.sequence + 1) % u64_mod in
    record {
      sequence = sequence;
      events = push_event r.events (record event { sequence = sequence });
    }

unfoldable pub snapshot : EditorTraceRecorder → List EditorTraceEvent
snapshot r = r.events

abbrev pub record_events : EditorTraceRecorder → List EditorTraceEvent → EditorTraceRecorder
record_events r [] = r
record_events r (e ∷ es) = record_events (record_event r e) es

-- The events with their sequence numbers, from `n` on.
abbrev pub numbered_from : ℕ → List EditorTraceEvent → List EditorTraceEvent
numbered_from n [] = []
numbered_from n (e ∷ es) = record e { sequence = n } ∷ numbered_from (n + 1) es

-- The last entries of a list, as many as the record holds.
abbrev pub newest : List EditorTraceEvent → List EditorTraceEvent
newest es = drop (length es - max_editor_trace_events) es

drop-append-le :
    (n : ℕ) (xs ys : List EditorTraceEvent) → n ≤ length xs → drop n (xs ++ ys) ≡ drop n xs ++ ys
drop-append-le zero xs ys h = refl
drop-append-le (suc n) [] ys h = absurd (omega arith)
drop-append-le (suc n) (x ∷ xs) ys h = drop-append-le n xs ys (omega arith)

length-newest :
    (all : List EditorTraceEvent)
    → length (newest all) ≡ length all - (length all - max_editor_trace_events)
length-newest all = length-drop (length all - max_editor_trace_events) all

newest-append :
    (all : List EditorTraceEvent) (e : EditorTraceEvent) (n : ℕ)
    → length all + 1 - max_editor_trace_events ≡ n
    → n ≤ length all
    → newest (all ++ e ∷ []) ≡ drop n all ++ e ∷ []
newest-append all e n h k =
    let at : length (all ++ e ∷ []) - max_editor_trace_events ≡ n =
      omega (arith, h, length-append all (e ∷ [])) in
    ap (λ m. drop m (all ++ e ∷ [])) at ∙ drop-append-le n all (e ∷ []) k

push_event-newest :
    (all : List EditorTraceEvent) (e : EditorTraceEvent)
    → push_event (newest all) e ≡ newest (all ++ e ∷ [])
push_event-newest all e =
    let old = length all - max_editor_trace_events in
    elim (Bool-cases (length (newest all) == max_editor_trace_events)) [
      | inl f ↦
          let full = (==_iff _ _).0 f in
          rw f (
            ap (λ es. es ++ e ∷ []) (drop-drop 1 old all)
            ∙ sym (
                newest-append all e (old + 1) (omega (arith, full, length-newest all))
                  (omega (arith, full, length-newest all))))
      | inr f ↦
          let room : length all < max_editor_trace_events = ground (arith, f, length-newest all) in
          rw f (sym (newest-append all e old (omega (arith, room)) (omega arith)))
    ]

record_event-newest :
    (all : List EditorTraceEvent) (r : EditorTraceRecorder) (e : EditorTraceEvent) (n : ℕ)
    → (r.sequence + 1) % u64_mod ≡ n
    → r.events ≡ newest all
    → (record_event r e).events ≡ newest (all ++ record e { sequence = n } ∷ [])
unfolding record_event
record_event-newest all r e n h k = rw (h, k) (push_event-newest all (record e { sequence = n }))

sequence-record_event :
    (r : EditorTraceRecorder) (e : EditorTraceEvent)
    → r.sequence + 1 < u64_mod
    → (record_event r e).sequence ≡ r.sequence + 1
unfolding record_event
sequence-record_event r e h = omega arith

record_events-newest :
    (es all : List EditorTraceEvent) (r : EditorTraceRecorder)
    → r.sequence + length es < u64_mod
    → r.events ≡ newest all
    → (record_events r es).events ≡ newest (all ++ numbered_from (r.sequence + 1) es)
record_events-newest [] all r h k = k ∙ ap newest (sym (append-nil all))
record_events-newest (e ∷ es) all r h k =
    let one : r.sequence + 1 < u64_mod = omega (arith, h) in
    let first : EditorTraceEvent = record e { sequence = r.sequence + 1 } in
    let after = record_event r e in
    record_events-newest es (all ++ first ∷ []) after
      (omega (arith, h, sequence-record_event r e one))
      (record_event-newest all r e (r.sequence + 1) (omega (arith, one)) k)
    ∙ ap newest (
        ap (λ n. (all ++ first ∷ []) ++ numbered_from (n + 1) es) (sequence-record_event r e one)
        ∙ append_assoc all (first ∷ []) (numbered_from (r.sequence + 1 + 1) es))

-- From an empty record, the snapshot after fewer than 2^64 events holds the newest 1024 of them, in
-- their order, numbered from 1 by the order of recording.
pub snapshot-record_events :
    (es : List EditorTraceEvent)
    → length es < u64_mod
    → snapshot (record_events new_recorder es) ≡ newest (numbered_from 1 es)
unfolding snapshot
snapshot-record_events es h = record_events-newest es [] new_recorder (omega (arith, h)) refl
