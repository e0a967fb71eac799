-- ===== src/Ignore/Rules.antt =====
-- server/indexer/indexer.go: which of the rules decides whether a path is ignored.
use vscode_php_strom.Base.{
  ◌≡◌, refl, Bool, true, false, not, ◌&&◌, Option, some, List, [], ◌∷◌, ◌++◌, arith, inl, inr,
  Bool-cases, Option-cases,
}
use vscode_php_strom.Text.{Bytes}
use vscode_php_strom.Ignore.{
  GitignoreRule, WorkspaceGitignore, matches_with_segments, ignored_loop, relative_segments,
  ignores_with_segments,
}

module _ (path_match : Bytes → Bytes → Option Bool) where
  abbrev pub none_matches : List GitignoreRule → List Bytes → Bool → Bool
  none_matches [] segments is_dir = true
  none_matches (r ∷ rs) segments is_dir =
      not (matches_with_segments path_match r segments is_dir) && none_matches rs segments is_dir

  ignored_loop-none :
      (rules : List GitignoreRule) (segments : List Bytes) (is_dir before : Bool)
      → none_matches rules segments is_dir ≡ true
      → ignored_loop path_match rules segments is_dir before ≡ before
  unfolding ignored_loop
  ignored_loop-none [] segments is_dir before h = refl
  ignored_loop-none (r ∷ rs) segments is_dir before h =
      elim (Bool-cases (matches_with_segments path_match r segments is_dir)) [
        | inl e ↦ absurd (ground (arith, e, h))
        | inr e ↦
            rw (e, ignored_loop)
              (ignored_loop-none rs segments is_dir before (ground (arith, e, h)))
      ]

  ignored_loop-last :
      (earlier later : List GitignoreRule) (rule : GitignoreRule) (segments : List Bytes)
      (is_dir before : Bool)
      → matches_with_segments path_match rule segments is_dir ≡ true
      → none_matches later segments is_dir ≡ true
      → ignored_loop path_match (earlier ++ rule ∷ later) segments is_dir before ≡ not rule.negated
  unfolding ignored_loop
  ignored_loop-last [] later rule segments is_dir before h k =
      rw (h, ignored_loop) (ignored_loop-none later segments is_dir (not rule.negated) k)
  ignored_loop-last (r ∷ earlier) later rule segments is_dir before h k =
      ignored_loop-last earlier later rule segments is_dir _ h k

  -- Of a path in the workspace that some rule matches, the last such rule says whether it is
  -- ignored: it is, unless that rule is negated.
  pub ignores_with_segments_last_rule :
      (m : WorkspaceGitignore) (earlier later : List GitignoreRule) (rule : GitignoreRule)
      (segments rest : List Bytes) (is_dir : Bool)
      → relative_segments m.root_segments segments ≡ some rest
      → m.rules ≡ earlier ++ rule ∷ later
      → matches_with_segments path_match rule rest is_dir ≡ true
      → none_matches later rest is_dir ≡ true
      → ignores_with_segments path_match m segments is_dir ≡ not rule.negated
  unfolding ignores_with_segments
  ignores_with_segments_last_rule m earlier later rule segments rest is_dir e f h k =
      rw (e, f, ignores_with_segments) (ignored_loop-last earlier later rule rest is_dir false h k)

  -- A path that no rule matches, or outside the workspace, is not ignored.
  pub ignores_with_segments_no_rule :
      (m : WorkspaceGitignore) (segments : List Bytes) (is_dir : Bool)
      → ((rest : List Bytes)
          → relative_segments m.root_segments segments ≡ some rest
          → none_matches m.rules rest is_dir ≡ true)
      → ignores_with_segments path_match m segments is_dir ≡ false
  unfolding ignores_with_segments
  ignores_with_segments_no_rule m segments is_dir h =
      elim (Option-cases (relative_segments m.root_segments segments)) [
        | inl e ↦ rw (e, ignores_with_segments) refl
        | inr (rest, e) ↦
            rw (e, ignores_with_segments) (ignored_loop-none m.rules rest is_dir false (h rest e))
      ]
