-- ===== src/Semantics.antt =====
-- server/indexer/indexer.go: the revisions by which a reader of the project index knows whether the
-- meaning of a document may have changed. The project index is of another package: here is what it
-- reports of a change. The lock makes each operation one step. strings.ToLower is a parameter.
pub mod Alone
pub mod Identifiers
pub mod Revisions
mod Tests
use vscode_php_strom.Base.{
  ℕ, u64_mod, zero, suc, ◌+◌, ◌-◌, ◌%◌, ◌^◌, Bool, true, false, not, ◌&&◌, ◌||◌, Option, none, some,
  List, [], ◌∷◌, ◌++◌, ◌==◌, leb, ltb, if◌then◌else◌, length, drop,
}
use vscode_php_strom.Text.{Bytes, byte_at, has_prefix, trim_prefix}

-- `strings.Index`, with `none` for -1.
unfoldable pub index : Bytes → Bytes → Option ℕ
unfolding has_prefix
index [] p = if has_prefix p [] then some 0 else none
index (c ∷ cs) p =
    let later = index cs p in
    if has_prefix p (c ∷ cs) then some 0 else elim later [ none ↦ none | some i ↦ some (suc i) ]

unfoldable pub is_php_identifier_byte : ℕ → Bool
is_php_identifier_byte b =
    b == b'_'
    || leb 0x80 b
    || leb b'a' b && leb b b'z'
    || leb b'A' b && leb b b'Z'
    || leb b'0' b && leb b b'9'

-- The tests of the characters around a match.
unfoldable pub stands_alone : Bytes → Bytes → ℕ → Bool
stands_alone text identifier start =
    let end = start + length identifier in
    (start == 0 || not (is_php_identifier_byte (byte_at text (start - 1))))
    && (end == length text || not (is_php_identifier_byte (byte_at text end)))

unfoldable pub identifier_loop : ℕ → Bytes → Bytes → ℕ → Bool
unfolding index stands_alone
identifier_loop zero text identifier start = false
identifier_loop (suc fuel) text identifier start =
    if leb (start + length identifier) (length text)
    then elim (index (drop start text) identifier) [
      | none ↦ false
      | some relative ↦
          let found = start + relative in
          let later = identifier_loop fuel text identifier (found + 1) in
          if stands_alone text identifier found then true else later
    ]
    else false

unfoldable pub contains_php_identifier : Bytes → Bytes → Bool
unfolding identifier_loop
contains_php_identifier text [] = false
contains_php_identifier text (c ∷ cs) = identifier_loop (suc (length text)) text (c ∷ cs) 0

abbrev pub max_semantic_change_events : ℕ
max_semantic_change_events = 64

abbrev pub max_semantic_change_dependency_names : ℕ
max_semantic_change_dependency_names = 256

-- What the project index reports of an update.
pub record ProjectIndexChanges : Type 0 where
  pub full_rebuild : Bool
  pub semantic_changed : Bool
  pub complete : Bool
  pub dependency_names : List Bytes

pub record SemanticChangeEvent : Type 0 where
  pub revision : ℕ
  pub dependency_names : List Bytes

pub record SemanticTraceCounters : Type 0 where
  pub full_builds : ℕ
  pub incremental_builds : ℕ
  pub full_fallbacks : ℕ
  pub body_only_updates : ℕ
  pub exported_changes : ℕ
  pub global_compactions : ℕ
  pub revision_checks : ℕ
  pub dependency_matches : ℕ

-- The fields of WorkspaceIndexer that the revisions are kept in.
pub record SemanticState : Type 0 where
  pub semantic_revision : ℕ
  pub semantic_base : ℕ
  pub semantic_changes : List SemanticChangeEvent
  pub trace : SemanticTraceCounters

-- `++` on a uint64.
abbrev pub next : ℕ → ℕ
next n = (n + 1) % u64_mod

-- What is known of single changes is forgotten: every document has the new revision.
unfoldable pub compact : SemanticState → ℕ → SemanticState
compact s revision = record {
  semantic_revision = revision;
  semantic_base = revision;
  semantic_changes = [];
  trace = record s.trace { global_compactions = next s.trace.global_compactions };
}

module _ (lower : Bytes → Bytes) where
  unfoldable pub lowered_names : List Bytes → List Bytes
  lowered_names [] = []
  lowered_names (name ∷ names) = lower (trim_prefix (b'\\' ∷ []) name) ∷ lowered_names names

  unfoldable pub record_semantic_changes : SemanticState → ProjectIndexChanges → SemanticState
  unfolding compact lowered_names
  record_semantic_changes s changes =
      let revision = next s.semantic_revision in
      if not changes.complete
        || length changes.dependency_names == 0
        || ltb max_semantic_change_dependency_names (length changes.dependency_names)
      then compact s revision
      else let event : SemanticChangeEvent = record {
        revision = revision;
        dependency_names = lowered_names changes.dependency_names;
      } in
        let events = s.semantic_changes ++ event ∷ [] in
        if ltb max_semantic_change_events (length events)
        then compact s revision
        else record s { semantic_revision = revision; semantic_changes = events }

  unfoldable pub any_identifier : Bytes → List Bytes → Bool
  unfolding contains_php_identifier
  any_identifier text [] = false
  any_identifier text (name ∷ names) =
      let later = any_identifier text names in
      if contains_php_identifier text name then true else later

  unfoldable pub semantic_change_affects_text : Bytes → List Bytes → Bool
  unfolding any_identifier
  semantic_change_affects_text text dependency_names = any_identifier (lower text) dependency_names

  -- The loop over the events: the revision so far, and whether one of them matched.
  unfoldable pub revision_loop : Bytes → ℕ → Bool → List SemanticChangeEvent → ℕ × Bool
  unfolding semantic_change_affects_text
  revision_loop text revision matched [] = (revision, matched)
  revision_loop text revision matched (change ∷ rest) =
      let affected = semantic_change_affects_text text change.dependency_names in
      revision_loop text (if affected then change.revision else revision)
        (if affected then true else matched) rest

  unfoldable pub document_semantic_revision : SemanticState → Bytes → SemanticState × ℕ
  unfolding revision_loop
  document_semantic_revision s text =
      let (revision, matched) = revision_loop text s.semantic_base false s.semantic_changes in
      let checks = next s.trace.revision_checks in
      let matches =
        if matched then next s.trace.dependency_matches else s.trace.dependency_matches in
      (
        record s {
          trace = record s.trace { revision_checks = checks; dependency_matches = matches };
        },
        revision,
      )

  -- The counting of rebuildProjectIndexLocked.
  unfoldable pub rebuild_project_index : SemanticState → SemanticState
  unfolding record_semantic_changes
  rebuild_project_index s =
      let counted = record s {
        trace = record s.trace { full_builds = next s.trace.full_builds };
      } in
      record_semantic_changes counted (record {
        full_rebuild = false;
        semantic_changed = false;
        complete = false;
        dependency_names = [];
      })

  -- The counting of rebuildProjectIndexFilesLocked.
  unfoldable pub count_build : SemanticTraceCounters → Bool → SemanticTraceCounters
  count_build t full_rebuild =
      if full_rebuild
      then record t { full_builds = next t.full_builds; full_fallbacks = next t.full_fallbacks }
      else record t { incremental_builds = next t.incremental_builds }

  unfoldable pub rebuild_project_index_files : SemanticState → ProjectIndexChanges → SemanticState
  unfolding record_semantic_changes count_build
  rebuild_project_index_files s changes =
      let t = count_build s.trace changes.full_rebuild in
      if changes.semantic_changed
      then record_semantic_changes
          (record s { trace = record t { exported_changes = next t.exported_changes } }) changes
      else record s { trace = record t { body_only_updates = next t.body_only_updates } }
