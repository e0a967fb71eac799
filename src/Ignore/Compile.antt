-- ===== src/Ignore/Compile.antt =====
-- server/indexer/indexer.go: the rules of a .gitignore file as the indexer compiles them. path.Clean is a
-- parameter, beside strings.TrimSpace and filepath.ToSlash.
use vscode_php_strom.Base.{List, [], ◌∷◌, if◌then◌else◌}
use vscode_php_strom.Text.{Bytes, beq, trim_prefix}
use vscode_php_strom.Text.Split.{split_byte, trim_byte}
use vscode_php_strom.Ignore.{GitignoreRule}
use vscode_php_strom.Ignore.Braces.{expand_brace_pattern}
use vscode_php_strom.Ignore.Parse.{RuleLine, dot_slash, parse_lines, glob_variants, expand_all}

module _ (trim_space to_slash clean : Bytes → Bytes) where
  unfoldable pub split_path_segments : Bytes → List Bytes
  unfolding split_byte trim_byte trim_prefix beq
  split_path_segments p =
      let q = trim_byte b'/' (trim_prefix dot_slash (clean (to_slash p))) in
      elim q [
        | [] ↦ []
        | c ∷ cs ↦ if beq (c ∷ cs) (b'.' ∷ []) then [] else split_byte b'/' (c ∷ cs)
      ]

  unfoldable pub split_all : List Bytes → List (List Bytes)
  unfolding split_path_segments
  split_all [] = []
  split_all (p ∷ ps) = split_path_segments p ∷ split_all ps

  unfoldable pub compile_rule : RuleLine → GitignoreRule
  unfolding split_all glob_variants expand_all expand_brace_pattern
  compile_rule r = record {
    negated = r.negated;
    dir_only = r.dir_only;
    has_slash = r.has_slash;
    expanded_patterns = split_all (expand_all to_slash (glob_variants r));
    simple_globs = if r.has_slash then [] else expand_brace_pattern (to_slash r.pattern);
  }

  abbrev pub compile_rules : List RuleLine → List GitignoreRule
  unfolding compile_rule
  compile_rules [] = []
  compile_rules (r ∷ rs) = compile_rule r ∷ compile_rules rs

  unfoldable pub parse_gitignore_rules : Bytes → List GitignoreRule
  unfolding parse_lines compile_rules
  parse_gitignore_rules content = compile_rules (parse_lines trim_space to_slash content)

  -- The patterns of the setting `files.exclude`.
  unfoldable pub compile_exclude_patterns : List Bytes → List (List Bytes)
  unfolding split_all expand_all
  compile_exclude_patterns patterns = split_all (expand_all to_slash patterns)
