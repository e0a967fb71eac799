-- ===== src/Exclusions.antt =====
-- server/providers/diagnostics_exclusions.go: which diagnostics of a file are sent. path.Match,
-- filepath.ToSlash and strings.TrimSpace are parameters; so is filepath.Rel, as the path of a file
-- relative to a root, `none` outside it. The rules of the setting are a Go map, ranged over in an order
-- that is left open.
pub mod Agreement
pub mod Filter
pub mod Suppression
mod Tests
use vscode_php_strom.Base.{
  ℕ, zero, suc, Bool, true, false, not, ◌&&◌, ◌||◌, Option, none, some, List, [], ◌∷◌, ◌++◌, ◌==◌,
  if◌then◌else◌, length,
}
use vscode_php_strom.Dict.{Dict}
use vscode_php_strom.Lsp.{Diagnostic}
use vscode_php_strom.Text.{Bytes, beq}
use vscode_php_strom.Text.Split.{split_byte, trim_byte}
use vscode_php_strom.Ignore.{double_star, is_empty, any_parent, last_or, glob}
use vscode_php_strom.Ignore.Braces.{expand_brace_pattern}
use vscode_php_strom.Ignore.Parse.{RuleLine, glob_variants, expand_all, parse_lines}

-- `codes` is nil where every code is ignored.
pub record DiagnosticPathRule : Type 0 where
  pub pattern : Bytes
  pub ignore_all : Bool
  pub codes : List Bytes

pub record GitignoreRule : Type 0 where
  pub negated : Bool
  pub dir_only : Bool
  pub has_slash : Bool
  pub variants : List (List Bytes)
  pub base_variants : List (List Bytes)

pub record WorkspaceGitignore : Type 0 where
  pub root : Bytes
  pub rules : List GitignoreRule

pub record DiagnosticsPathExclusions : Type 0 where
  pub explicit : List DiagnosticPathRule
  pub gitignores : List WorkspaceGitignore

abbrev pub contains_code : List Bytes → Bytes → Bool
contains_code [] code = false
contains_code (c ∷ cs) code = beq c code || contains_code cs code

-- The code of a diagnostic, and "" where it is no string.
abbrev pub code_of : Diagnostic → Bytes
code_of d = elim d.code [ none ↦ [] | some code ↦ code ]

-- The loop that keeps the diagnostics whose code is not suppressed.
unfoldable pub filter_codes : List Bytes → List Diagnostic → List Diagnostic
filter_codes suppressed [] = []
filter_codes suppressed (d ∷ ds) =
    let filtered = filter_codes suppressed ds in
    if contains_code suppressed (code_of d) then filtered else d ∷ filtered

module _ (to_slash : Bytes → Bytes) where
  -- `strings.Split(variant, "/")` of the variants, with slashes, that are not empty between their slashes.
  unfoldable pub split_variants : List Bytes → List (List Bytes)
  unfolding split_byte trim_byte
  split_variants [] = []
  split_variants (v ∷ vs) =
      let compiled = split_variants vs in
      elim (trim_byte b'/' (to_slash v)) [
        | [] ↦ compiled
        | c ∷ cs ↦ split_byte b'/' (c ∷ cs) ∷ compiled
      ]

  unfoldable pub compile_glob_variants : List Bytes → List (List Bytes)
  unfolding expand_all split_variants
  compile_glob_variants patterns = split_variants (expand_all to_slash patterns)

  unfoldable pub compile_rule : RuleLine → GitignoreRule
  unfolding compile_glob_variants glob_variants
  compile_rule r = record {
    negated = r.negated;
    dir_only = r.dir_only;
    has_slash = r.has_slash;
    variants = compile_glob_variants (glob_variants r);
    base_variants = if r.has_slash then [] else compile_glob_variants (r.pattern ∷ []);
  }

  unfoldable pub compile_rules : List RuleLine → List GitignoreRule
  unfolding compile_rule
  compile_rules [] = []
  compile_rules (r ∷ rs) = compile_rule r ∷ compile_rules rs

  unfoldable pub parse_gitignore_rules : (Bytes → Bytes) → Bytes → List GitignoreRule
  unfolding compile_rules parse_lines
  parse_gitignore_rules trim_space content = compile_rules (parse_lines trim_space to_slash content)

  unfoldable pub explicit_rule : Bytes × List Bytes → DiagnosticPathRule
  explicit_rule (pattern, codes) = record {
    pattern = to_slash pattern;
    ignore_all = length codes == 0;
    codes = codes;
  }

  -- The loop over the setting, in the order of the list.
  unfoldable pub build_explicit : Dict (List Bytes) → List DiagnosticPathRule
  unfolding explicit_rule
  build_explicit [] = []
  build_explicit (entry ∷ config) = explicit_rule entry ∷ build_explicit config

module _ (path_match : Bytes → Bytes → Option Bool) where
  unfoldable pub match_segment_slice : List Bytes → List Bytes → Bool
  match_segment_slice [] candidate = is_empty candidate
  match_segment_slice (p ∷ pattern) [] =
      let skipped = match_segment_slice pattern [] in if beq p double_star then skipped else false
  match_segment_slice (p ∷ pattern) (c ∷ candidate) =
      let skipped = match_segment_slice pattern (c ∷ candidate) in
      let later = match_segment_slice (p ∷ pattern) candidate in
      let one = match_segment_slice pattern candidate in
      if beq p double_star then skipped || later else glob path_match p c && one

  unfoldable pub matches_parts : List (List Bytes) → List Bytes → Bool
  unfolding match_segment_slice
  matches_parts [] parts = false
  matches_parts (variant ∷ variants) parts =
      match_segment_slice variant parts || matches_parts variants parts

  -- The match of a path that is not empty, cut at its slashes.
  unfoldable pub matches_split : GitignoreRule → List Bytes → Bool
  unfolding matches_parts any_parent
  matches_split r [] = false
  matches_split r (s ∷ rest) =
      if r.dir_only
      then any_parent (matches_parts r.variants) [] (s ∷ rest)
      else matches_parts r.variants (s ∷ rest)
        || not r.has_slash && matches_parts r.base_variants (last_or s rest ∷ [])

  unfoldable pub matches : (Bytes → Bytes) → GitignoreRule → Bytes → Bool
  unfolding matches_split split_byte
  matches to_slash r rel = elim (to_slash rel) [
    | [] ↦ false
    | c ∷ cs ↦
        if beq (c ∷ cs) (b'.' ∷ []) then false else matches_split r (split_byte b'/' (c ∷ cs))
  ]

  -- The loop from the last rule to the first, which stops at a match. The rules come from the last.
  unfoldable pub ignored_from_last : (Bytes → Bytes) → List GitignoreRule → Bytes → Bool
  unfolding matches
  ignored_from_last to_slash [] rel = false
  ignored_from_last to_slash (r ∷ earlier) rel =
      let rest = ignored_from_last to_slash earlier rel in
      if matches to_slash r rel then not r.negated else rest

  unfoldable pub match_path_segments : (Bytes → Bytes) → Bytes → Bytes → Bool
  unfolding match_segment_slice split_byte trim_byte
  match_path_segments to_slash pattern candidate =
      let name = trim_byte b'/' (to_slash candidate) in
      elim (trim_byte b'/' (to_slash pattern)) [
        | [] ↦ beq name []
        | c ∷ cs ↦ match_segment_slice (split_byte b'/' (c ∷ cs)) (split_byte b'/' name)
      ]

  unfoldable pub any_variant : (Bytes → Bytes) → List Bytes → Bytes → Bool
  unfolding match_path_segments
  any_variant to_slash [] name = false
  any_variant to_slash (v ∷ vs) name =
      match_path_segments to_slash v name || any_variant to_slash vs name

  unfoldable pub match_simple : (Bytes → Bytes) → Bytes → Bytes → Bool
  unfolding any_variant expand_brace_pattern
  match_simple to_slash pattern name =
      any_variant to_slash (expand_brace_pattern (to_slash pattern)) (to_slash name)
