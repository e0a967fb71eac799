-- ===== src/Handler/Timers.antt =====
-- server/phpstrom/handler.go: which timers are armed for a document.
use vscode_php_strom.Base.{
  ℕ, suc, ◌≡◌, refl, ap, sym, ◌∙◌, Bool, true, false, not, ◌&&◌, ◌||◌, Option, none, some, List, [],
  ◌∷◌, ◌++◌, ◌==◌, ltb, arith, inl, inr, Bool-cases, Option-cases, ==_iff,
}
use vscode_php_strom.Dict.{Dict, lookup, insert, delete, lookup-insert, lookup-delete}
use vscode_php_strom.Text.{Bytes, beq, beq_iff, beq_refl}
use vscode_php_strom.Handler.Schedule.{
  Work, Schedule, disarm, disarm_work, is_armed, stop, schedule_document_work, forget, fire,
  forget_work, cancel_document_analysis, cancel_loop, cancel_all_document_analysis, Step, Reachable,
}
use vscode_php_strom.Handler.Armed.{
  all, all_imp, all-disarm, all-append, is_armed-disarm, not_armed, without,
}

-- The work is the one that is noted for its document.
abbrev pub is_noted : Dict Work → Work → Bool
is_noted scheduled w = elim (lookup w.uri scheduled) [ none ↦ false | some v ↦ v.timer == w.timer ]

abbrev pub is_old : ℕ → Work → Bool
is_old next w = ltb w.timer next

-- Every armed timer is the one noted for its document, no function that runs has an armed timer, and the
-- numbers of timers are not used again.
pub record IsCoherent (s : Schedule) : Type 0 where
  pub noted : all (is_noted s.scheduled) s.armed ≡ true
  pub fired : all (λ w. not (is_armed w.timer s.armed)) s.running ≡ true
  pub old : all (is_old s.next) s.armed ≡ true
  pub old_running : all (is_old s.next) s.running ≡ true

-- Stopping the work of a document leaves no timer armed for it.
abbrev other : Bytes → Work → Bool
other uri w = not (beq uri w.uri)

stop-noted :
    (uri : Bytes) (s : Schedule)
    → all (is_noted s.scheduled) s.armed ≡ true
    → all (λ w. is_noted s.scheduled w && other uri w) (stop (lookup uri s.scheduled) s).armed
      ≡ true
unfolding stop
stop-noted uri s h = elim (Option-cases (lookup uri s.scheduled)) [
  | inl e ↦
      rw (e, stop)
        (all_imp s.armed
          (λ w a b. elim (Bool-cases (beq uri w.uri)) [
            | inl f ↦
                let same : lookup w.uri s.scheduled ≡ none =
                  ap (λ k. lookup k s.scheduled) (sym ((beq_iff uri w.uri).0 f)) ∙ e in
                absurd (ground (arith, same, a))
            | inr f ↦ ground (arith, f, a)
          ])
          h h)
  | inr (v, e) ↦
      rw (e, stop)
        (all_imp (disarm v.timer s.armed)
          (λ w a b. elim (Bool-cases (beq uri w.uri)) [
            | inl f ↦
                let same : lookup w.uri s.scheduled ≡ some v =
                  ap (λ k. lookup k s.scheduled) (sym ((beq_iff uri w.uri).0 f)) ∙ e in
                absurd (ground (arith, same, a))
            | inr f ↦ ground (arith, f, a)
          ])
          (all-disarm (is_noted s.scheduled) v.timer s.armed h)
          (all-disarm (is_noted s.scheduled) v.timer s.armed h))
]

-- Timers only go away, and none but those of the document.
stop-armed :
    (f : Work → Bool) (o : Option Work) (s : Schedule)
    → all f s.armed ≡ true
    → all f (stop o s).armed ≡ true
unfolding stop
stop-armed f none s h = h
stop-armed f (some v) s h =
    all_imp (disarm v.timer s.armed) (λ w a b. ground (arith, a)) (all-disarm f v.timer s.armed h)
      (all-disarm f v.timer s.armed h)

stop-is_armed :
    (t : ℕ) (o : Option Work) (s : Schedule)
    → is_armed t s.armed ≡ false
    → is_armed t (stop o s).armed ≡ false
unfolding stop
stop-is_armed t none s h = h
stop-is_armed t (some v) s h = ground (arith, h, is_armed-disarm t v.timer s.armed)

is_noted-insert :
    (scheduled : Dict Work) (w v : Work)
    → is_noted scheduled v ≡ true
    → other w.uri v ≡ true
    → is_noted (insert w.uri w scheduled) v ≡ true
is_noted-insert scheduled w v h o = ground (arith, h, o, lookup-insert w.uri v.uri w scheduled)

is_noted-new : (scheduled : Dict Work) (w : Work) → is_noted (insert w.uri w scheduled) w ≡ true
is_noted-new scheduled w = ground (arith, beq_refl w.uri, lookup-insert w.uri w.uri w scheduled)

schedule-IsCoherent :
    (uri : Bytes) (version : ℕ) (publish : Bool) (s : Schedule)
    → IsCoherent s
    → IsCoherent (schedule_document_work uri version publish s)
unfolding schedule_document_work stop
schedule-IsCoherent uri version publish s c =
    let found = lookup uri s.scheduled in
    let w : Work = record { timer = s.next; uri = uri; version = version; publish = publish } in
    let before = stop-noted uri s c.noted in
    record {
      noted =
          let rest =
            all_imp {f = λ v. is_noted s.scheduled v && other uri v}
              {g = λ v. is_noted s.scheduled v && other uri v}
              {h = is_noted (insert uri w s.scheduled)} (disarm_work found s.armed)
              (λ v a b. is_noted-insert s.scheduled w v (ground (arith, a)) (ground (arith, a)))
              before before in
          ground (arith, rest, is_noted-new s.scheduled w);
      fired =
          all_imp s.running
            (λ v a b. ground (arith, a, b, stop-is_armed v.timer found s (ground (arith, a))))
            c.fired c.old_running;
      old =
          let rest =
            all_imp {f = is_old s.next} {g = is_old s.next} {h = is_old (suc s.next)}
              (disarm_work found s.armed) (λ v a b. ground (arith, a))
              (stop-armed (is_old s.next) found s c.old)
              (stop-armed (is_old s.next) found s c.old) in
          ground (arith, rest);
      old_running = all_imp s.running (λ v a b. ground (arith, a)) c.old_running c.old_running;
    }

fire-IsCoherent :
    (w : Work) (before after : List Work) (s : Schedule)
    → s.armed ≡ before ++ w ∷ after
    → IsCoherent s
    → IsCoherent (fire w s)
unfolding fire
fire-IsCoherent w before after s e c =
    let old_all = all-append (is_old s.next) before (w ∷ after) in
    let same : all (is_old s.next) s.armed ≡ all (is_old s.next) (before ++ w ∷ after) =
      ap (all (is_old s.next)) e in
    record {
      noted =
          all_imp (disarm w.timer s.armed) (λ v a b. ground (arith, a))
            (all-disarm (is_noted s.scheduled) w.timer s.armed c.noted)
            (all-disarm (is_noted s.scheduled) w.timer s.armed c.noted);
      fired =
          let rest =
            all_imp {h = λ v. not (is_armed v.timer (disarm w.timer s.armed))} s.running
              (λ v a b. ground (arith, a, is_armed-disarm v.timer w.timer s.armed)) c.fired
              c.fired in
          ground (arith, rest, is_armed-disarm w.timer w.timer s.armed);
      old =
          all_imp (disarm w.timer s.armed) (λ v a b. ground (arith, a))
            (all-disarm (is_old s.next) w.timer s.armed c.old)
            (all-disarm (is_old s.next) w.timer s.armed c.old);
      old_running = ground (arith, c.old, c.old_running, same, old_all);
    }

is_noted-forget :
    (scheduled : Dict Work) (w v : Work)
    → is_noted scheduled v ≡ true
    → not (v.timer == w.timer) ≡ true
    → is_noted (forget w scheduled) v ≡ true
unfolding forget
is_noted-forget scheduled w v h n = elim (Option-cases (lookup w.uri scheduled)) [
  | inl e ↦ rw (e, forget) h
  | inr (u, e) ↦ elim (Bool-cases (beq w.uri v.uri)) [
    | inl f ↦
        let same : lookup v.uri scheduled ≡ some u =
          ap (λ k. lookup k scheduled) (sym ((beq_iff w.uri v.uri).0 f)) ∙ e in
        let differs : (u.timer == w.timer) ≡ false = ground (arith, same, h, n) in
        rw (e, forget) (rw (differs, forget) h)
    | inr f ↦ ground (arith, e, f, h, lookup-delete w.uri v.uri scheduled)
  ]
]

forget-noted :
    (w : Work) (before after : List Work) (s : Schedule)
    → s.running ≡ before ++ w ∷ after
    → IsCoherent s
    → all (is_noted (forget w s.scheduled)) s.armed ≡ true
forget-noted w before after s e c =
    let same : all (λ v. not (is_armed v.timer s.armed)) s.running
        ≡ all (λ v. not (is_armed v.timer s.armed)) (before ++ w ∷ after) =
      ap (all (λ v. not (is_armed v.timer s.armed))) e in
    let parts = all-append (λ v. not (is_armed v.timer s.armed)) before (w ∷ after) in
    let fired = c.fired in
    all_imp s.armed (λ v a b. is_noted-forget s.scheduled w v a b) c.noted
      (not_armed w.timer s.armed (ground (arith, fired, same, parts)))

is_noted-delete :
    (scheduled : Dict Work) (uri : Bytes) (v : Work)
    → is_noted scheduled v ≡ true
    → other uri v ≡ true
    → is_noted (delete uri scheduled) v ≡ true
is_noted-delete scheduled uri v h o = ground (arith, h, o, lookup-delete uri v.uri scheduled)

cancel-IsCoherent :
    (uri : Bytes) (s : Schedule) → IsCoherent s → IsCoherent (cancel_document_analysis uri s)
unfolding cancel_document_analysis stop
cancel-IsCoherent uri s c = elim (Option-cases (lookup uri s.scheduled)) [
  | inl e ↦ rw (e, cancel_document_analysis) c
  | inr (w, e) ↦
      let before = stop-noted uri s c.noted in
      let rest : all (λ v. is_noted s.scheduled v && other uri v) (disarm w.timer s.armed) ≡ true =
        ap (λ o. all (λ v. is_noted s.scheduled v && other uri v) (disarm_work o s.armed)) (sym e)
        ∙ before in
      rw (e, cancel_document_analysis)
        (record {
          noted =
              all_imp {h = is_noted (delete uri s.scheduled)} (disarm w.timer s.armed)
                (λ v a b. is_noted-delete s.scheduled uri v (ground (arith, a)) (ground (arith, a)))
                rest rest;
          fired =
              all_imp {h = λ v. not (is_armed v.timer (disarm w.timer s.armed))} s.running
                (λ v a b. ground (arith, a, is_armed-disarm v.timer w.timer s.armed)) c.fired
                c.fired;
          old = stop-armed (is_old s.next) (some w) s c.old;
          old_running = c.old_running;
        })
]

-- Some entry of the map has the timer.
abbrev has_timer : ℕ → Dict Work → Bool
has_timer timer [] = false
has_timer timer ((_, w) ∷ entries) = w.timer == timer || has_timer timer entries

is_noted-has_timer :
    (scheduled : Dict Work) (w : Work)
    → is_noted scheduled w ≡ true
    → has_timer w.timer scheduled ≡ true
unfolding lookup
is_noted-has_timer [] w h = h
is_noted-has_timer ((uri, v) ∷ scheduled) w h = ground (arith, h, is_noted-has_timer scheduled w)

cancel_loop-armed :
    (entries : Dict Work) (s : Schedule) (f : Work → Bool)
    → all f s.armed ≡ true
    → all (λ w. f w && not (has_timer w.timer entries)) (cancel_loop entries s).armed ≡ true
unfolding cancel_loop stop
cancel_loop-armed [] s f h = all_imp s.armed (λ w a b. ground (arith, a)) h h
cancel_loop-armed ((_, v) ∷ entries) s f h =
    let rest =
      cancel_loop-armed entries (stop (some v) s) (λ w. f w && not (w.timer == v.timer))
        (all-disarm f v.timer s.armed h) in
    all_imp {h = λ w. f w && not (v.timer == w.timer || has_timer w.timer entries)}
      (cancel_loop entries (stop (some v) s)).armed
      (λ w a b. ground (arith, a, ==_iff v.timer w.timer, ==_iff w.timer v.timer)) rest rest

cancel_loop-rest :
    (entries : Dict Work) (s : Schedule)
    → ((cancel_loop entries s).running ≡ s.running) × ((cancel_loop entries s).next ≡ s.next)
unfolding cancel_loop stop
cancel_loop-rest [] s = (refl, refl)
cancel_loop-rest ((_, v) ∷ entries) s = cancel_loop-rest entries (stop (some v) s)

none_armed : (ws : List Work) → all (λ w. false) ws ≡ true → ws ≡ []
none_armed [] h = refl
none_armed (w ∷ ws) h = cc

cancel_all-armed : (s : Schedule) → IsCoherent s → (cancel_loop s.scheduled s).armed ≡ []
cancel_all-armed s c =
    let left = cancel_loop-armed s.scheduled s (is_noted s.scheduled) c.noted in
    none_armed (cancel_loop s.scheduled s).armed (
      all_imp {h = λ w. false} (cancel_loop s.scheduled s).armed
        (λ w a b. ground (arith, a, is_noted-has_timer s.scheduled w)) left left)

cancel_all-IsCoherent : (s : Schedule) → IsCoherent s → IsCoherent (cancel_all_document_analysis s)
unfolding cancel_all_document_analysis
cancel_all-IsCoherent s c =
    let none_left = cancel_all-armed s c in
    let (running, next) = cancel_loop-rest s.scheduled s in
    record {
      noted = rw none_left refl;
      fired =
          rw (none_left, running) (all_imp s.running (λ v a b. refl) c.old_running c.old_running);
      old = rw none_left refl;
      old_running = rw (running, next) c.old_running;
    }

Step-IsCoherent : {s t : Schedule} → Step s t → IsCoherent s → IsCoherent t
unfolding forget_work
Step-IsCoherent (Step.scheduled {s} uri version publish) c =
    schedule-IsCoherent uri version publish s c
Step-IsCoherent (Step.fired {s} w before after e) c = fire-IsCoherent w before after s e c
Step-IsCoherent (Step.began {s} w before after e) c = record {
  noted = forget-noted w before after s e c;
  fired = c.fired;
  old = c.old;
  old_running = c.old_running;
}
Step-IsCoherent (Step.finished {s} w before after e) c = record {
  noted = forget-noted w before after s e c;
  fired = without (λ v. not (is_armed v.timer s.armed)) w before after s.running e c.fired;
  old = c.old;
  old_running = without (is_old s.next) w before after s.running e c.old_running;
}
Step-IsCoherent (Step.cancelled {s} uri) c = cancel-IsCoherent uri s c
Step-IsCoherent (Step.cancelled_all {s}) c = cancel_all-IsCoherent s c

-- However scheduling, firing, running and cancelling come one after another: an armed timer is the one
-- that documentAnalysisTimers notes for its document, so that no document has two; a function that
-- runs has no armed timer; and the numbers of timers are new.
pub Reachable-IsCoherent : {s : Schedule} → Reachable s → IsCoherent s
Reachable-IsCoherent Reachable.start = record {
  noted = refl;
  fired = refl;
  old = refl;
  old_running = refl;
}
Reachable-IsCoherent (Reachable.next r e) = Step-IsCoherent e (Reachable-IsCoherent r)
