-- ===== src/Ignore/Tests.antt =====
-- Runs of the ignore rules of server/indexer/indexer.go at concrete inputs.
use vscode_php_strom.Base.{◌≡◌, ◌↔◌, refl, Bool, true, false, not, Option, some, [], ◌∷◌}
use vscode_php_strom.Text.{Bytes, codes, beq}
use vscode_php_strom.Ignore.{
  double_star, any_suffix, GitignoreRule, WorkspaceGitignore, relative_segments,
  match_segment_sequence, matches_path, any_glob, matches_with_segments, ignored_loop,
  ignores_with_segments,
}
use vscode_php_strom.Ignore.Segments.{Matches, match_segment_sequence_iff}
use vscode_php_strom.Ignore.Rules.{ignores_with_segments_last_rule}

-- Patterns without wildcards in a segment.
abbrev literal : Bytes → Bytes → Option Bool
unfolding beq
literal pattern name = some (beq pattern name)

abbrev log_rule : Bool → GitignoreRule
log_rule negated = record {
  negated = negated;
  dir_only = false;
  has_slash = false;
  expanded_patterns = (double_star ∷ codes "log" ∷ []) ∷ [];
  simple_globs = codes "log" ∷ [];
}

abbrev workspace : WorkspaceGitignore
workspace = record { root_segments = codes "w" ∷ []; rules = log_rule true ∷ log_rule false ∷ [] }

ignored_run :
    ignores_with_segments literal workspace (codes "w" ∷ codes "a" ∷ codes "log" ∷ []) false ≡ true
unfolding literal beq relative_segments any_suffix match_segment_sequence matches_path any_glob
    matches_with_segments ignored_loop ignores_with_segments
ignored_run = refl

match_segment_sequence_iff_example :
    (match_segment_sequence literal (double_star ∷ codes "log" ∷ []) (codes "a" ∷ codes "log" ∷ [])
      ≡ true)
    ↔ Matches literal (double_star ∷ codes "log" ∷ []) (codes "a" ∷ codes "log" ∷ [])
match_segment_sequence_iff_example =
    match_segment_sequence_iff literal (double_star ∷ codes "log" ∷ [])
      (codes "a" ∷ codes "log" ∷ [])

ignores_with_segments_last_rule_example :
    ignores_with_segments literal workspace (codes "w" ∷ codes "log" ∷ []) false ≡ not false
unfolding literal beq relative_segments any_suffix match_segment_sequence matches_path any_glob
    matches_with_segments
ignores_with_segments_last_rule_example =
    ignores_with_segments_last_rule literal workspace (log_rule true ∷ []) [] (log_rule false)
      (codes "w" ∷ codes "log" ∷ []) (codes "log" ∷ []) false refl refl refl refl
