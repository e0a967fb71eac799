-- ===== src/Semantics/Revisions.antt =====
-- server/indexer/indexer.go: the revision of a document before and after changes.
use vscode_php_strom.Base.{
  ℕ, u64_mod, ◌+◌, ◌≤◌, ◌<◌, ◌≡◌, refl, ◌∙◌, Bool, true, false, not, ◌&&◌, ◌||◌, List, [], ◌∷◌,
  ◌++◌, ◌==◌, leb, ltb, if◌then◌else◌, length, arith, ◌⊎◌, inl, inr, Bool-cases, ltb→le,
}
use vscode_php_strom.Text.{Bytes}
use vscode_php_strom.Semantics.{
  max_semantic_change_events, max_semantic_change_dependency_names, ProjectIndexChanges,
  SemanticChangeEvent, SemanticState, next, compact, lowered_names, record_semantic_changes,
  semantic_change_affects_text, revision_loop, document_semantic_revision,
}

-- No event has a revision above `r`.
abbrev pub within_revision : ℕ → List SemanticChangeEvent → Bool
within_revision r [] = true
within_revision r (e ∷ es) = leb e.revision r && within_revision r es

-- The state of the revisions: the base and the events are not of the future, and the events are
-- bounded in number.
pub record IsConsistent (s : SemanticState) : Type 0 where
  pub base : s.semantic_base ≤ s.semantic_revision
  pub events : within_revision s.semantic_revision s.semantic_changes ≡ true
  pub bounded : length s.semantic_changes ≤ max_semantic_change_events

within_revision_mono :
    (q r : ℕ) (es : List SemanticChangeEvent)
    → q ≤ r
    → within_revision q es ≡ true
    → within_revision r es ≡ true
within_revision_mono q r [] h k = refl
within_revision_mono q r (e ∷ es) h k = ground (arith, within_revision_mono q r es)

within_revision-append :
    (r : ℕ) (es : List SemanticChangeEvent) (e : SemanticChangeEvent)
    → within_revision r es ≡ true
    → e.revision ≤ r
    → within_revision r (es ++ e ∷ []) ≡ true
within_revision-append r [] e h k = ground arith
within_revision-append r (d ∷ es) e h k = ground (arith, within_revision-append r es e)

-- The first test of recordSemanticChangesLocked.
abbrev forgets : ProjectIndexChanges → Bool
forgets c =
    not c.complete
    || length c.dependency_names == 0
    || ltb max_semantic_change_dependency_names (length c.dependency_names)

module _ (lower : Bytes → Bytes) where
  -- The revision that a reader gets for a document.
  abbrev pub revision_of : SemanticState → Bytes → ℕ
  revision_of s text = (document_semantic_revision lower s text).1

  -- Whether a change may concern a text: its names are not all known, or one of them is in the text.
  abbrev pub concerns : Bytes → ProjectIndexChanges → Bool
  concerns text changes =
      not changes.complete
      || semantic_change_affects_text lower text (lowered_names lower changes.dependency_names)

  abbrev pub record_all : SemanticState → List ProjectIndexChanges → SemanticState
  record_all s [] = s
  record_all s (c ∷ cs) = record_all (record_semantic_changes lower s c) cs

  abbrev pub any_concerns : Bytes → List ProjectIndexChanges → Bool
  any_concerns text [] = false
  any_concerns text (c ∷ cs) = concerns text c || any_concerns text cs

  -- The event of a change.
  abbrev event_of : SemanticState → ProjectIndexChanges → SemanticChangeEvent
  event_of s c = record {
    revision = next s.semantic_revision;
    dependency_names = lowered_names lower c.dependency_names;
  }

  abbrev extended : SemanticState → ProjectIndexChanges → SemanticState
  extended s c = record s {
    semantic_revision = next s.semantic_revision;
    semantic_changes = s.semantic_changes ++ event_of s c ∷ [];
  }

  -- A change is either recorded as an event or it makes the revisions forget the events.
  record_cases :
      (s : SemanticState) (c : ProjectIndexChanges)
      → (record_semantic_changes lower s c ≡ compact s (next s.semantic_revision))
        ⊎ ((record_semantic_changes lower s c ≡ extended s c)
            × (c.complete ≡ true)
            × (length (extended s c).semantic_changes ≤ max_semantic_change_events))
  unfolding record_semantic_changes
  record_cases s c = elim (Bool-cases (forgets c)) [
    | inl e ↦ inl (rw (e, record_semantic_changes) refl)
    | inr e ↦
        elim (Bool-cases
          (ltb max_semantic_change_events (length (extended s c).semantic_changes))) [
            | inl f ↦ inl (rw (e, record_semantic_changes) (rw (f, record_semantic_changes) refl))
            | inr f ↦ inr (
              rw (e, record_semantic_changes) (rw (f, record_semantic_changes) refl),
              ground (arith, e),
              ltb→le _ _ f,
            )
          ]
  ]

  revision_loop-append :
      (es : List SemanticChangeEvent) (text : Bytes) (r : ℕ) (m : Bool) (e : SemanticChangeEvent)
      → (revision_loop lower text r m (es ++ e ∷ [])).0 ≡ (
          if semantic_change_affects_text lower text e.dependency_names
          then e.revision
          else (revision_loop lower text r m es).0)
  unfolding revision_loop
  revision_loop-append [] text r m e = refl
  revision_loop-append (d ∷ es) text r m e = revision_loop-append es text _ _ e

  revision_loop-le :
      (es : List SemanticChangeEvent) (text : Bytes) (r q : ℕ) (m : Bool)
      → r ≤ q
      → within_revision q es ≡ true
      → (revision_loop lower text r m es).0 ≤ q
  unfolding revision_loop
  revision_loop-le [] text r q m h k = h
  revision_loop-le (e ∷ es) text r q m h k =
      revision_loop-le es text _ q _ (ground (arith, h, k)) (ground (arith, k))

  -- A document's revision is never of the future.
  pub revision_of-le :
      (s : SemanticState) (text : Bytes) → IsConsistent s → revision_of s text ≤ s.semantic_revision
  unfolding document_semantic_revision
  revision_of-le s text w =
      revision_loop-le s.semantic_changes text s.semantic_base s.semantic_revision false w.base
        w.events

  -- Recording a change keeps the state consistent, at most 64 events and none of the future, if the
  -- new revision is below 2^64.
  pub record_semantic_changes-IsConsistent :
      (s : SemanticState) (c : ProjectIndexChanges)
      → s.semantic_revision + 1 < u64_mod
      → IsConsistent s
      → IsConsistent (record_semantic_changes lower s c)
  unfolding compact
  record_semantic_changes-IsConsistent s c h w = elim (record_cases s c) [
    | inl e ↦ rw e (record { base = omega arith; events = refl; bounded = omega arith })
    | inr (e, _, short) ↦
        let r = next s.semantic_revision in
        rw e (record {
          base = omega (arith, w.base);
          events =
              within_revision-append r s.semantic_changes (event_of s c)
                (within_revision_mono s.semantic_revision r s.semantic_changes (omega arith)
                  w.events)
                (omega arith);
          bounded = short;
        })
  ]

  revision_of-compact :
      (s : SemanticState) (text : Bytes) (r : ℕ) → revision_of (compact s r) text ≡ r
  unfolding compact document_semantic_revision revision_loop
  revision_of-compact s text r = refl

  revision_of-extended :
      (s : SemanticState) (text : Bytes) (c : ProjectIndexChanges)
      → revision_of (extended s c) text ≡ (
          if semantic_change_affects_text lower text (lowered_names lower c.dependency_names)
          then next s.semantic_revision
          else revision_of s text)
  unfolding document_semantic_revision
  revision_of-extended s text c =
      revision_loop-append s.semantic_changes text s.semantic_base false (event_of s c)

  -- After a change that may concern a text, the revision of the text is the newest, if that is
  -- below 2^64.
  pub revision_of-concerned :
      (s : SemanticState) (c : ProjectIndexChanges) (text : Bytes)
      → s.semantic_revision + 1 < u64_mod
      → concerns text c ≡ true
      → revision_of (record_semantic_changes lower s c) text ≡ s.semantic_revision + 1
  revision_of-concerned s c text h k = elim (record_cases s c) [
    | inl e ↦ rw e (revision_of-compact s text (next s.semantic_revision) ∙ omega arith)
    | inr (e, complete, _) ↦ rw e (revision_of-extended s text c ∙ ground (arith, k, complete, h))
  ]

  revision_of_mono :
      (s : SemanticState) (c : ProjectIndexChanges) (text : Bytes)
      → s.semantic_revision + 1 < u64_mod
      → IsConsistent s
      → revision_of s text ≤ revision_of (record_semantic_changes lower s c) text
  revision_of_mono s c text h w =
      let le = revision_of-le s text w in
      elim (record_cases s c) [
        | inl e ↦ rw (e, revision_of-compact s text (next s.semantic_revision)) (omega (arith, le))
        | inr (e, _, _) ↦ rw (e, revision_of-extended s text c) (ground (arith, le, h))
      ]

  semantic_revision-record :
      (s : SemanticState) (c : ProjectIndexChanges)
      → s.semantic_revision + 1 < u64_mod
      → (record_semantic_changes lower s c).semantic_revision ≡ s.semantic_revision + 1
  unfolding compact
  semantic_revision-record s c h = elim (record_cases s c) [
    | inl e ↦ rw e (omega arith)
    | inr (e, _, _) ↦ rw e (omega arith)
  ]

  revision_of-record_all_mono :
      (cs : List ProjectIndexChanges) (s : SemanticState) (text : Bytes)
      → s.semantic_revision + length cs < u64_mod
      → IsConsistent s
      → revision_of s text ≤ revision_of (record_all s cs) text
  revision_of-record_all_mono [] s text h w = omega arith
  revision_of-record_all_mono (c ∷ cs) s text h w =
      let one : s.semantic_revision + 1 < u64_mod = omega (arith, h) in
      let after = record_semantic_changes lower s c in
      omega (
        arith,
        revision_of_mono s c text one w,
        revision_of-record_all_mono cs after text
            (omega (arith, h, semantic_revision-record s c one))
            (record_semantic_changes-IsConsistent s c one w),
      )

  -- A reader that gets the same revision of a text again may keep what it knows: none of the
  -- changes recorded in between may concern the text. The state before them is consistent, and the
  -- revisions stay below 2^64.
  pub same_revision-any_concerns :
      (cs : List ProjectIndexChanges) (s : SemanticState) (text : Bytes)
      → s.semantic_revision + length cs < u64_mod
      → IsConsistent s
      → revision_of (record_all s cs) text ≡ revision_of s text
      → any_concerns text cs ≡ false
  same_revision-any_concerns [] s text h w e = refl
  same_revision-any_concerns (c ∷ cs) s text h w e =
      let one : s.semantic_revision + 1 < u64_mod = omega (arith, h) in
      let after = record_semantic_changes lower s c in
      let consistent = record_semantic_changes-IsConsistent s c one w in
      let rest : after.semantic_revision + length cs < u64_mod =
        omega (arith, h, semantic_revision-record s c one) in
      let up = revision_of_mono s c text one w in
      let later = revision_of-record_all_mono cs after text rest consistent in
      let le = revision_of-le s text w in
      elim (Bool-cases (concerns text c)) [
        | inl k ↦
            let new = revision_of-concerned s c text one k in
            absurd (omega (arith, e, later, new, le))
        | inr k ↦
            rw k (
              same_revision-any_concerns cs after text rest consistent
                (omega (arith, e, up, later)))
      ]
