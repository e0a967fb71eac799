-- ===== src/Ignore.antt =====
-- server/indexer/indexer.go: which paths the ignore rules of a workspace match, on the segments of a path
-- and of a pattern. path.Match, on one segment, is a parameter, with `none` for a malformed pattern.
pub mod Braces
pub mod Parse
pub mod Compile
pub mod Segments
pub mod Rules
mod Tests
use vscode_php_strom.Base.{
  ℕ, zero, suc, ◌-◌, Bool, true, false, not, ◌&&◌, ◌||◌, Option, none, some, List, [], ◌∷◌, ◌++◌,
  if◌then◌else◌, length, drop, ltb,
}
use vscode_php_strom.Text.{Bytes, beq}

abbrev pub double_star : Bytes
double_star = b'*' ∷ b'*' ∷ []

-- The loop over the suffixes of the candidate, the whole of it first.
unfoldable pub any_suffix : (List Bytes → Bool) → List Bytes → Bool
any_suffix f [] = f []
any_suffix f (c ∷ cs) = let later = any_suffix f cs in if f (c ∷ cs) then true else later

abbrev pub is_empty : List Bytes → Bool
is_empty [] = true
is_empty (c ∷ cs) = false

pub record GitignoreRule : Type 0 where
  pub negated : Bool
  pub dir_only : Bool
  pub has_slash : Bool
  pub expanded_patterns : List (List Bytes)
  pub simple_globs : List Bytes

pub record WorkspaceGitignore : Type 0 where
  pub root_segments : List Bytes
  pub rules : List GitignoreRule

-- What of a path is behind the segments of the root, which it must begin with.
unfoldable pub relative_segments : List Bytes → List Bytes → Option (List Bytes)
relative_segments [] segments = some segments
relative_segments (r ∷ root) [] = none
relative_segments (r ∷ root) (s ∷ segments) =
    let rest = relative_segments root segments in if beq s r then rest else none

-- The loop over the proper, non-empty prefixes of a path; `before` is the prefix so far.
unfoldable pub any_parent : (List Bytes → Bool) → List Bytes → List Bytes → Bool
any_parent f before [] = false
any_parent f before (s ∷ []) = false
any_parent f before (s ∷ t ∷ rest) =
    let parent = before ++ s ∷ [] in
    let later = any_parent f parent (t ∷ rest) in if f parent then true else later

abbrev pub last_or : Bytes → List Bytes → Bytes
last_or s [] = s
last_or s (t ∷ rest) = last_or t rest

module _ (path_match : Bytes → Bytes → Option Bool) where
  -- An error of path.Match is no match.
  abbrev pub glob : Bytes → Bytes → Bool
  glob pattern name = elim (path_match pattern name) [ none ↦ false | some matched ↦ matched ]

  unfoldable pub match_segment_sequence : List Bytes → List Bytes → Bool
  unfolding any_suffix
  match_segment_sequence [] candidate = is_empty candidate
  match_segment_sequence (segment ∷ pattern) candidate =
      let skipping = is_empty pattern || any_suffix (match_segment_sequence pattern) candidate in
      let one : Bool = elim candidate [
        | [] ↦ false
        | c ∷ rest ↦ glob segment c && match_segment_sequence pattern rest
      ] in
      if beq segment double_star then skipping else one

  unfoldable pub matches_path : List (List Bytes) → List Bytes → Bool
  unfolding match_segment_sequence
  matches_path [] candidate = false
  matches_path (pattern ∷ patterns) candidate =
      match_segment_sequence pattern candidate || matches_path patterns candidate

  unfoldable pub any_glob : List Bytes → Bytes → Bool
  any_glob [] base = false
  any_glob (pat ∷ pats) base = glob pat base || any_glob pats base

  unfoldable pub matches_with_segments : GitignoreRule → List Bytes → Bool → Bool
  unfolding matches_path any_glob any_parent
  matches_with_segments r [] is_dir = false
  matches_with_segments r (s ∷ rest) is_dir =
      let whole = matches_path r.expanded_patterns (s ∷ rest) in
      if r.dir_only
      then is_dir && whole || any_parent (matches_path r.expanded_patterns) [] (s ∷ rest)
      else whole || not r.has_slash && any_glob r.simple_globs (last_or s rest)

  -- The loop over the rules: the last one that matches decides.
  unfoldable pub ignored_loop : List GitignoreRule → List Bytes → Bool → Bool → Bool
  unfolding matches_with_segments
  ignored_loop [] segments is_dir ignored = ignored
  ignored_loop (rule ∷ rules) segments is_dir ignored =
      ignored_loop rules segments is_dir
        (if matches_with_segments rule segments is_dir then not rule.negated else ignored)

  unfoldable pub ignores_with_segments : WorkspaceGitignore → List Bytes → Bool → Bool
  unfolding relative_segments ignored_loop
  ignores_with_segments m segments is_dir = elim (relative_segments m.root_segments segments) [
    | none ↦ false
    | some rest ↦ ignored_loop m.rules rest is_dir false
  ]

  unfoldable pub ignores_path : List WorkspaceGitignore → List Bytes → Bool → Bool
  unfolding ignores_with_segments
  ignores_path [] segments is_dir = false
  ignores_path (m ∷ matchers) segments is_dir =
      ignores_with_segments m segments is_dir || ignores_path matchers segments is_dir

  unfoldable pub should_exclude_dir : List (List Bytes) → List Bytes → Bool
  unfolding matches_path
  should_exclude_dir compiled_excludes segments = matches_path compiled_excludes segments

unfoldable pub may_reinclude : List GitignoreRule → Bool
may_reinclude [] = false
may_reinclude (rule ∷ rules) = rule.negated || may_reinclude rules

unfoldable pub contains_with_segments : WorkspaceGitignore → List Bytes → Bool
unfolding relative_segments
contains_with_segments m segments = elim (relative_segments m.root_segments segments) [
  | none ↦ false
  | some _ ↦ true
]

unfoldable pub can_skip_ignored_dir : List WorkspaceGitignore → List Bytes → Bool
unfolding may_reinclude contains_with_segments
can_skip_ignored_dir [] segments = true
can_skip_ignored_dir (m ∷ matchers) segments =
    not (may_reinclude m.rules && contains_with_segments m segments)
    && can_skip_ignored_dir matchers segments
