-- ===== src/Semantics/Tests.antt =====
-- Runs of the semantic revisions of server/indexer/indexer.go at concrete inputs.
use vscode_php_strom.Base.{◌+◌, ◌≡◌, ◌↔◌, refl, true, false, [], ◌∷◌, arith}
use vscode_php_strom.Text.{codes, has_prefix, trim_prefix}
use vscode_php_strom.Semantics.{
  index, is_php_identifier_byte, stands_alone, identifier_loop, contains_php_identifier,
  ProjectIndexChanges, SemanticTraceCounters, SemanticState, compact, lowered_names,
  record_semantic_changes, any_identifier, semantic_change_affects_text, revision_loop,
  document_semantic_revision,
}
use vscode_php_strom.Semantics.Identifiers.{contains_php_identifier_iff}
use vscode_php_strom.Semantics.Alone.{OccursAlone}
use vscode_php_strom.Semantics.Revisions.{
  IsConsistent, revision_of, any_concerns, record_semantic_changes-IsConsistent,
  revision_of-concerned, same_revision-any_concerns,
}

-- "foobar" has no "foo", and "foobar-foo" has.
inside_run : contains_php_identifier (codes "foobar") (codes "foo") ≡ false
unfolding index is_php_identifier_byte stands_alone identifier_loop contains_php_identifier
    has_prefix
inside_run = refl

alone_run : contains_php_identifier (codes "foobar-foo") (codes "foo") ≡ true
unfolding index is_php_identifier_byte stands_alone identifier_loop contains_php_identifier
    has_prefix
alone_run = refl

contains_php_identifier_iff_example :
    (contains_php_identifier (codes "foobar-foo") (b'f' ∷ b'o' ∷ b'o' ∷ []) ≡ true)
    ↔ OccursAlone (codes "foobar-foo") (b'f' ∷ b'o' ∷ b'o' ∷ [])
contains_php_identifier_iff_example =
    contains_php_identifier_iff (codes "foobar-foo") b'f' (b'o' ∷ b'o' ∷ [])

abbrev counters : SemanticTraceCounters
counters = record {
  full_builds = 0;
  incremental_builds = 0;
  full_fallbacks = 0;
  body_only_updates = 0;
  exported_changes = 0;
  global_compactions = 0;
  revision_checks = 0;
  dependency_matches = 0;
}

abbrev state : SemanticState
state = record {
  semantic_revision = 1;
  semantic_base = 0;
  semantic_changes = record { revision = 1; dependency_names = codes "bar" ∷ [] } ∷ [];
  trace = counters;
}

state-IsConsistent : IsConsistent state
state-IsConsistent = record { base = omega arith; events = refl; bounded = omega arith }

abbrev foo_changed : ProjectIndexChanges
foo_changed = record {
  full_rebuild = false;
  semantic_changed = true;
  complete = true;
  dependency_names = codes "\\foo" ∷ [];
}

record_semantic_changes-IsConsistent_example :
    IsConsistent (record_semantic_changes (λ x. x) state foo_changed)
record_semantic_changes-IsConsistent_example =
    record_semantic_changes-IsConsistent (λ x. x) state foo_changed (omega arith) state-IsConsistent

revision_of-concerned_example :
    revision_of (λ x. x) (record_semantic_changes (λ x. x) state foo_changed) (codes "new foo")
    ≡ 1 + 1
unfolding index is_php_identifier_byte stands_alone identifier_loop contains_php_identifier
    has_prefix trim_prefix lowered_names any_identifier semantic_change_affects_text
revision_of-concerned_example =
    revision_of-concerned (λ x. x) state foo_changed (codes "new foo") (omega arith) refl

same_revision-any_concerns_example :
    any_concerns (λ x. x) (codes "new bar") (foo_changed ∷ foo_changed ∷ []) ≡ false
unfolding index is_php_identifier_byte stands_alone identifier_loop contains_php_identifier
    has_prefix trim_prefix lowered_names any_identifier semantic_change_affects_text compact
    record_semantic_changes revision_loop document_semantic_revision
same_revision-any_concerns_example =
    same_revision-any_concerns (λ x. x) (foo_changed ∷ foo_changed ∷ []) state (codes "new bar")
      (omega arith) state-IsConsistent refl
