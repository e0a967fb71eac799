-- ===== src/Ignore/Parse.antt =====
-- server/indexer/indexer.go and server/providers/diagnostics_exclusions.go: parseGitignoreRules, which is
-- the same in both packages but for the patterns that each compiles. strings.TrimSpace and
-- filepath.ToSlash are parameters.
use vscode_php_strom.Base.{
  ℕ, Bool, false, ◌||◌, Option, none, some, List, [], ◌∷◌, ◌++◌, ◌==◌, if◌then◌else◌, drop,
}
use vscode_php_strom.Text.{Bytes, has_prefix, trim_prefix, has_suffix, trim_suffix}
use vscode_php_strom.Text.Split.{split_byte}
use vscode_php_strom.Ignore.{double_star}
use vscode_php_strom.Ignore.Braces.{expand_brace_pattern}

-- What is read from one line, before the patterns are compiled.
pub record RuleLine : Type 0 where
  pub pattern : Bytes
  pub negated : Bool
  pub dir_only : Bool
  pub anchored : Bool
  pub has_slash : Bool

-- The byte `/` and the prefixes of a line.
abbrev pub slash : Bytes
slash = b'/' ∷ []

abbrev pub dot_slash : Bytes
dot_slash = b'.' ∷ b'/' ∷ []

abbrev pub has_byte : ℕ → Bytes → Bool
has_byte b [] = false
has_byte b (c ∷ cs) = c == b || has_byte b cs

-- The patterns of a rule before braces are expanded.
unfoldable pub glob_variants : RuleLine → List Bytes
glob_variants r =
    if r.anchored then r.pattern ∷ [] else r.pattern ∷ (double_star ++ slash ++ r.pattern) ∷ []

module _ (to_slash : Bytes → Bytes) where
  -- The variants of some patterns, one after the other.
  unfoldable pub expand_all : List Bytes → List Bytes
  unfolding expand_brace_pattern
  expand_all [] = []
  expand_all (v ∷ vs) = expand_brace_pattern (to_slash v) ++ expand_all vs

module _ (trim_space to_slash : Bytes → Bytes) where
  -- The rest of the loop's body for a line without spaces and escapes around it.
  unfoldable pub parse_rule : Bytes → Option RuleLine
  unfolding has_prefix trim_prefix has_suffix trim_suffix
  parse_rule line =
      let negated = has_prefix (b'!' ∷ []) line in
      let positive = if negated then trim_prefix (b'!' ∷ []) line else line in
      let relative = trim_prefix dot_slash positive in
      let anchored = has_prefix slash relative in
      let unanchored = trim_prefix slash relative in
      let dir_only = has_suffix slash unanchored in
      let pattern = trim_prefix dot_slash (to_slash (trim_suffix slash unanchored)) in
      elim pattern [
        | [] ↦ none
        | c ∷ cs ↦ some (record {
          pattern = c ∷ cs;
          negated = negated;
          dir_only = dir_only;
          anchored = anchored;
          has_slash = has_byte b'/' (c ∷ cs);
        })
      ]

  -- `none` for a line that holds no rule.
  unfoldable pub parse_line : Bytes → Option RuleLine
  unfolding parse_rule
  parse_line given = elim (trim_space given) [
    | [] ↦ none
    | c ∷ cs ↦
        let line = c ∷ cs in
        if has_prefix (b'#' ∷ []) line
        then none
        else parse_rule (
            if has_prefix (b'\\' ∷ b'#' ∷ []) line || has_prefix (b'\\' ∷ b'!' ∷ []) line
            then drop 1 line
            else line)
  ]

  unfoldable pub some_rules : List Bytes → List RuleLine
  unfolding parse_line
  some_rules [] = []
  some_rules (line ∷ lines) =
      let rest = some_rules lines in elim (parse_line line) [ none ↦ rest | some r ↦ r ∷ rest ]

  -- The rules of a file, in its order.
  unfoldable pub parse_lines : Bytes → List RuleLine
  unfolding split_byte some_rules
  parse_lines content = some_rules (split_byte b'\n' content)
