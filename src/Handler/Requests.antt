-- ===== src/Handler/Requests.antt =====
-- server/phpstrom/handler.go: requestWorkspaceDiagnostics and the goroutine that it starts. A step is one
-- critical section of workspaceRequestMu, or the scan of a goroutine. Goroutines are a list, of any
-- length, in any of which the next step may be.
use vscode_php_strom.Base.{
  ℕ, suc, ◌+◌, ◌≤◌, ◌≡◌, refl, ap, sym, ◌∙◌, Bool, true, false, not, ◌||◌, Option, none, some, List,
  [], ◌∷◌, ◌++◌, arith, if◌then◌else◌, length, length-append, inl, inr, Bool-cases,
}

-- Before its next round, or in a scan, with the flag whether to index first.
pub data Worker : Type 0 where
  looping : Worker
  scanning : Bool → Worker

pub record Requests : Type 0 where
  pub active : Bool
  pub queued : Bool
  pub index : Bool
  pub workers : List Worker

abbrev pub no_requests : Requests
no_requests = record { active = false; queued = false; index = false; workers = [] }

-- requestWorkspaceDiagnostics.
unfoldable pub request : Bool → Requests → Requests
request index_workspace s =
    let queued : Requests = record s { queued = true; index = s.index || index_workspace } in
    if s.active
    then queued
    else record queued { active = true; workers = s.workers ++ looping ∷ [] }

-- One round of a goroutine: what it goes on as, or `none` when it returns.
unfoldable pub round : Requests → Requests × Option Worker
round s =
    if not s.queued
    then (record s { active = false }, none)
    else (record s { queued = false; index = false }, some (scanning s.index))

-- The goroutines around one that goes on as `w`.
abbrev pub rejoin : List Worker → Option Worker → List Worker → List Worker
rejoin before none after = before ++ after
rejoin before (some w) after = before ++ w ∷ after

unfoldable pub after_round : Requests → List Worker → List Worker → Requests
unfolding round
after_round s before after = record (round s).0 { workers = rejoin before (round s).1 after }

-- The scan of a goroutine ends: its loop goes on, and what was asked for meanwhile stays.
unfoldable pub after_scan : Requests → List Worker → List Worker → Requests
after_scan s before after = record s { workers = before ++ looping ∷ after }

-- What a goroutine does by itself.
pub data WorkerStep : Requests → Requests → Type 0 where
  took_round :
      {s : Requests} (before after : List Worker)
      → s.workers ≡ before ++ looping ∷ after
      → WorkerStep s (after_round s before after)
  scanned :
      {s : Requests} (index : Bool) (before after : List Worker)
      → s.workers ≡ before ++ scanning index ∷ after
      → WorkerStep s (after_scan s before after)

pub data Step : Requests → Requests → Type 0 where
  requested : {s : Requests} (index_workspace : Bool) → Step s (request index_workspace s)
  worked : {s t : Requests} → WorkerStep s t → Step s t

pub data Reachable : Requests → Type 0 where
  start : Reachable no_requests
  next : {s t : Requests} → Reachable s → Step s t → Reachable t

-- Steps of goroutines alone, with no request between them.
pub data WorkerSteps : Requests → Requests → Type 0 where
  done : {s : Requests} → WorkerSteps s s
  more : {s t u : Requests} → WorkerStep s t → WorkerSteps t u → WorkerSteps s u

abbrev count_active : Bool → ℕ
count_active true = 1
count_active false = 0

-- A goroutine runs if and only if the flag says so, and a request is queued only then.
pub record IsCoalesced (s : Requests) : Type 0 where
  pub one : length s.workers ≡ count_active s.active
  pub served : s.queued ≡ true → s.active ≡ true

count_active-le : (b : Bool) → count_active b ≤ 1
count_active-le true = omega arith
count_active-le false = omega arith

request-IsCoalesced : (b : Bool) (s : Requests) → IsCoalesced s → IsCoalesced (request b s)
unfolding request
request-IsCoalesced b s w = elim (Bool-cases s.active) [
  | inl e ↦ rw (e, request) (record { one = w.one ∙ ap count_active e; served = λ h. refl })
  | inr e ↦
      rw (e, request)
        (record {
          one = omega (arith, length-append s.workers (looping ∷ []), w.one, ap count_active e);
          served = λ h. refl;
        })
]

round-IsCoalesced :
    (s : Requests) (before after : List Worker) (w : Worker)
    → s.workers ≡ before ++ w ∷ after
    → IsCoalesced s
    → IsCoalesced (after_round s before after)
unfolding round after_round
round-IsCoalesced s before after w e c =
    let count : length before + suc (length after) ≡ count_active s.active =
      sym (length-append before (w ∷ after)) ∙ ap length (sym e) ∙ c.one in
    elim (Bool-cases s.queued) [
      | inl q ↦
          rw (q, round)
            (record {
              one = length-append before (scanning s.index ∷ after) ∙ count;
              served = λ h. cc;
            })
      | inr q ↦
          rw (q, round)
            (record {
              one = omega (arith, count, length-append before after, count_active-le s.active);
              served = λ h. cc h;
            })
    ]

scanned-IsCoalesced :
    (s : Requests) (before after : List Worker) (w : Worker)
    → s.workers ≡ before ++ w ∷ after
    → IsCoalesced s
    → IsCoalesced (after_scan s before after)
unfolding after_scan
scanned-IsCoalesced s before after w e c = record {
  one =
      length-append before (looping ∷ after)
      ∙ sym (length-append before (w ∷ after))
      ∙ ap length (sym e)
      ∙ c.one;
  served = c.served;
}

WorkerStep-IsCoalesced : {s t : Requests} → WorkerStep s t → IsCoalesced s → IsCoalesced t
WorkerStep-IsCoalesced (WorkerStep.took_round {s} before after e) w =
    round-IsCoalesced s before after looping e w
WorkerStep-IsCoalesced (WorkerStep.scanned {s} i before after e) w =
    scanned-IsCoalesced s before after (scanning i) e w

Step-IsCoalesced : {s t : Requests} → Step s t → IsCoalesced s → IsCoalesced t
Step-IsCoalesced (Step.requested {s} b) w = request-IsCoalesced b s w
Step-IsCoalesced (Step.worked e) w = WorkerStep-IsCoalesced e w

-- However the requests and the goroutine come one after another, at most one goroutine runs, and so
-- there is at most one scan; and while a request is queued one does.
pub Reachable-IsCoalesced : {s : Requests} → Reachable s → IsCoalesced s
Reachable-IsCoalesced Reachable.start = record { one = refl; served = λ h. h }
Reachable-IsCoalesced (Reachable.next r e) = Step-IsCoalesced e (Reachable-IsCoalesced r)

single : (ws : List Worker) → length ws ≡ 1 → (w : Worker) × (ws ≡ w ∷ [])
single [] h = absurd (omega (arith, h))
single (w ∷ []) h = (w, refl)
single (w ∷ v ∷ ws) h = absurd (omega (arith, h))

-- What the goroutine reaches by itself that takes the request queued in `s`.
abbrev Taken : Requests → Type 0
Taken s =
    (t : Requests) × WorkerSteps s t × (t.workers ≡ scanning s.index ∷ []) × (t.queued ≡ false)

take_round : (s : Requests) → s.queued ≡ true → s.workers ≡ looping ∷ [] → Taken s
unfolding round after_round
take_round s h w = (
  after_round s [] [],
  WorkerSteps.more (WorkerStep.took_round [] [] w) WorkerSteps.done,
  rw (h, round) refl,
  rw (h, round) refl,
)

end_scan : (s : Requests) (w : Worker) → s.queued ≡ true → s.workers ≡ w ∷ [] → Taken s
unfolding after_scan
end_scan s looping h e = take_round s h e
end_scan s (scanning i) h e =
    let (t, run, workers, taken) = take_round (after_scan s [] []) h refl in
    (t, WorkerSteps.more (WorkerStep.scanned i [] [] e) run, workers, taken)

-- A queued request is not lost: from every state that is reached with one the goroutine has steps of
-- its own, with no further request, to a scan that takes it, with indexing if that was asked for.
pub queued-WorkerSteps :
    (s : Requests)
    → Reachable s
    → s.queued ≡ true
    → (t : Requests) × WorkerSteps s t × (t.workers ≡ scanning s.index ∷ []) × (t.queued ≡ false)
queued-WorkerSteps s r h =
    let c = Reachable-IsCoalesced r in
    let (w, e) = single s.workers (c.one ∙ ap count_active (c.served h)) in end_scan s w h e
